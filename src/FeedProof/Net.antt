-- ===== src/FeedProof/Net.antt =====
-- The part of Python's `ipaddress` that the feed proof uses, on IPv4: addresses as numbers below
-- 2 ^ 32, and a network as the block number `index` of `2 ^ bits` addresses (`bits` is 32 less the
-- prefix length).
use homecluster_infra.Base.{
  is_digit, number_from, ℕ, suc, ◌+◌, ◌-◌, ◌*◌, ◌/◌, ◌%◌, ◌^◌, String, ◌<>◌, Bool, false, ◌&&◌, not,
  Option, none, some, List, [], ◌∷◌, ◌++◌, leb, ◌==◌, nat_eq, decimal, length, all, if◌then◌else◌,
}

pub record Network : Type 0 where
  pub index : ℕ
  pub bits : ℕ

abbrev pub network_address : Network → ℕ
network_address n = n.index * 2 ^ n.bits

abbrev pub broadcast_address : Network → ℕ
broadcast_address n = n.index * 2 ^ n.bits + (2 ^ n.bits - 1)

abbrev pub prefixlen : Network → ℕ
prefixlen n = 32 - n.bits

-- `address in network`
abbrev pub covers : Network → ℕ → Bool
covers n a = (a / 2 ^ n.bits) == n.index

abbrev pub same_network : Network → Network → Bool
same_network m n = m.index == n.index && m.bits == n.bits

-- `network.supernet()`; the whole address space is its own.
unfoldable pub supernet : Network → Network
supernet n = if leb 32 n.bits then n else record { index = n.index / 2; bits = suc n.bits }

-- `text.split(sep)` on code points.
split_from : ℕ → List ℕ → List ℕ → List (List ℕ)
split_from sep word [] = word ∷ []
split_from sep word (c ∷ s) =
    let go_on = split_from sep (word ++ c ∷ []) s in
    let cut = split_from sep [] s in if c == sep then word ∷ cut else go_on

leading_zero : List ℕ → Bool
leading_zero (c ∷ d ∷ rest) = c == b'0'
leading_zero s = false

-- One octet: one to three digits, no leading zero, at most 255.
octet : List ℕ → Option ℕ
octet [] = none
octet (c ∷ s) =
    let text = c ∷ s in
    let n = number_from 0 text in
    if all is_digit text && leb (length text) 3 && not (leading_zero text) && leb n 255
    then some n
    else none

abbrev join_octets : Option ℕ → Option ℕ → Option ℕ → Option ℕ → Option ℕ
join_octets (some a) (some b) (some c) (some d) = some (((a * 256 + b) * 256 + c) * 256 + d)
join_octets _ _ _ _ = none

abbrev four_octets : List (List ℕ) → Option ℕ
four_octets (a ∷ b ∷ c ∷ d ∷ []) = join_octets (octet a) (octet b) (octet c) (octet d)
four_octets _ = none

-- `IPv4Address(text)`: `none` is its `ValueError`.
unfoldable pub parse_address : List ℕ → Option ℕ
unfolding split_from octet leading_zero number_from is_digit
parse_address text = four_octets (split_from b'.' [] text)

-- `IPv4Network(f"{address}/{prefix}", strict=True)`, for a prefix of at most 32: `none` where the
-- address has bits behind the prefix.
unfoldable pub strict_network : ℕ → ℕ → Option Network
strict_network address prefix =
    if address % 2 ^ (32 - prefix) == 0
    then some (record { index = address / 2 ^ (32 - prefix); bits = 32 - prefix })
    else none

unfoldable pub address_text : ℕ → String
address_text a =
    decimal (a / 16777216 % 256)
    <> ("."
        <> (decimal (a / 65536 % 256)
            <> ("." <> (decimal (a / 256 % 256) <> ("." <> decimal (a % 256))))))

-- `str(network)`
unfoldable pub network_text : Network → String
unfolding address_text
network_text n = address_text (network_address n) <> ("/" <> decimal (prefixlen n))

-- `network.is_multicast`: both ends lie in 224.0.0.0/4.
unfoldable pub is_multicast : Network → Bool
is_multicast n = leb 0xE0000000 (network_address n) && leb (broadcast_address n) 0xEFFFFFFF
