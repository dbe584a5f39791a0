-- ===== src/FeedProof/Parse.antt =====
-- `canonical` and `parse_feed` of banip_feed_proof.py.
--
-- `sha256` is `hashlib.sha256(data).hexdigest()`, and `is_global` the property of `ipaddress`,
-- whose table of reserved ranges differs between the versions of Python.
pub mod Laws
use homecluster_infra.Base.{
  is_digit, number_from, encode, ℕ, zero, suc, ◌+◌, ◌≡◌, refl, String, Bool, true, false, ◌&&◌,
  ◌||◌, not, Option, none, some, List, [], ◌∷◌, ◌++◌, map, ◌==◌, string_eq, nat_eq, leb, ltb,
  length, all, is_empty, join, if◌then◌else◌, Result, ok, err, ◌>>=◌, ◌>>◌, require,
}
use homecluster_infra.FeedProof.Net.{
  Network, broadcast_address, prefixlen, parse_address, strict_network, network_text, is_multicast,
}
use homecluster_infra.FeedProof.Collapse.{collapse_addresses}
use homecluster_infra.FeedProof.Lines.{is_ascii, splitlines, strip_line, is_skipped, split_words}

abbrev pub max_bytes : ℕ
max_bytes = 1048576

abbrev pub max_records : ℕ
max_records = 5000

-- `name in REGISTRY`
abbrev pub is_registered : String → Bool
is_registered name = name == "dshield" || name == "feodo"

pub record Canonical : Type 0 where
  pub canonical_sha256 : String
  pub count : ℕ

pub record Parsed : Type 0 where
  pub content : Canonical
  pub source_records : ℕ
  pub source_sha256 : String

-- What raises a `ValueError` that `parse_feed` turns into its own.
abbrev or_invalid {ℓ} : {A : Type ℓ} → Option A → Result A
or_invalid none = err "feed_format_invalid"
or_invalid (some a) = ok a

-- `int(text)`: Python refuses more than 4300 digits.
abbrev int_of : List ℕ → Option ℕ
int_of text = if leb (length text) 4300 then some (number_from 0 text) else none

-- The record `start end prefix ...` of the dshield table.
unfoldable pub dshield_network : List (List ℕ) → Result Network
unfolding ◌>>=◌
dshield_network (first ∷ second ∷ third ∷ metadata) =
    require (not (is_empty third) && all is_digit third) "feed_format_invalid"
    >> or_invalid (parse_address first)
    >>= λ start. or_invalid (parse_address second) >>= λ end.
        or_invalid (int_of third) >>= λ prefix.
        require (leb 16 prefix && leb prefix 32) "unsupported_prefix_size"
        >> or_invalid (strict_network start prefix)
        >>= λ network.
            require (broadcast_address network == end) "feed_range_mismatch" >> ok network
dshield_network parts = err "feed_format_invalid"

-- A line of any other feed is one address.
unfoldable pub address_network : List (List ℕ) → Result Network
unfolding ◌>>=◌
address_network (text ∷ []) =
    or_invalid (parse_address text) >>= λ address. ok (record { index = address; bits = 0 })
address_network parts = err "feed_format_invalid"

unfoldable pub line_network : String → List (List ℕ) → Result Network
line_network name parts = if name == "dshield" then dshield_network parts else address_network parts

module _ (sha256 : List ℕ → String) where
  -- The networks all have version 4.
  unfoldable pub canonical : List Network → Result Canonical
  unfolding ◌>>=◌
  canonical networks =
      require (not (is_empty networks) && leb (length networks) max_records) "feed_record_limit"
      >> (require (all (λ n. ltb 0 (prefixlen n)) networks) "invalid_address_family"
          >> elim (collapse_addresses networks) [
            | none ↦ err "collapse_out_of_fuel"
            | some normalized ↦ ok (record {
              canonical_sha256 = sha256 (encode (join "\n" (map network_text normalized)));
              count = length normalized;
            })
          ])

module _ (is_global : Network → Bool) where
  -- `for line in lines:`, with the networks read so far.
  unfoldable pub read_lines : String → List Network → List (List ℕ) → Result (List Network)
  unfolding ◌>>=◌
  read_lines name networks [] = ok networks
  read_lines name networks (line ∷ lines) = elim (is_skipped (strip_line line)) [
    | true ↦ read_lines name networks lines
    | false ↦ line_network name (split_words (strip_line line)) >>= λ network.
        require (is_global network && not (is_multicast network)) "nonpublic_feed_prefix"
        >> (require (leb (length (networks ++ network ∷ [])) max_records) "feed_record_limit"
            >> read_lines name (networks ++ network ∷ []) lines)
  ]

module _ (sha256 : List ℕ → String) (is_global : Network → Bool) where
  unfoldable pub parse_feed : String → List ℕ → Result Parsed
  unfolding ◌>>=◌
  parse_feed name bytes =
      require (is_registered name && ltb 0 (length bytes) && leb (length bytes) max_bytes)
        "feed_size_limit"
      >> (require (is_ascii bytes) "feed_format_invalid"
          >> (read_lines is_global name [] (splitlines bytes) >>= λ networks.
              canonical sha256 networks >>= λ content. ok (record {
                content = content;
                source_records = length networks;
                source_sha256 = sha256 bytes;
              })))
