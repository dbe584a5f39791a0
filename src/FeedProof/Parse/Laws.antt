-- ===== src/FeedProof/Parse/Laws.antt =====
-- What a parsed feed says of its networks.
use homecluster_infra.Base.{
  encode, none-some, ℕ, ◌-◌, ◌%◌, ◌^◌, ◌≤◌, ◌<◌, ◌≡◌, refl, sym, ◌∙◌, subst, String, Bool, true,
  false, ◌&&◌, not, Option, none, some, List, [], ◌∷◌, ◌++◌, map, ◌==◌, string_eq, nat_eq, leb, ltb,
  length, all, All, join, inl, inr, Bool-cases, some-eq, arith, ok, err, ◌>>=◌, ◌>>◌, require,
  >>=-eq-ok, require-eq-ok, ok-injective,
}
use homecluster_infra.FeedProof.Net.{
  Network, broadcast_address, prefixlen, parse_address, strict_network, network_text, is_multicast,
}
use homecluster_infra.FeedProof.Collapse.Laws.{covered}
use homecluster_infra.FeedProof.Collapse.Order.{
  collapse_addresses_total, covered-collapse_addresses,
}
use homecluster_infra.FeedProof.Lines.{is_ascii, splitlines, is_skipped, strip_line, split_words}
use homecluster_infra.FeedProof.Parse.{
  max_bytes, max_records, is_registered, Canonical, Parsed, or_invalid, int_of, canonical,
  dshield_network, address_network, line_network, read_lines, parse_feed,
}

or_invalid-eq-ok {ℓ} : {A : Type ℓ} (o : Option A) {a : A} → or_invalid o ≡ ok a → o ≡ some a
or_invalid-eq-ok none h = cc
or_invalid-eq-ok (some a) h = cc

strict_network-bits :
    (address prefix : ℕ) {n : Network}
    → leb 16 prefix ≡ true
    → strict_network address prefix ≡ some n
    → n.bits ≤ 16
unfolding strict_network
strict_network-bits address prefix {n} long h =
    elim (Bool-cases (address % 2 ^ (32 - prefix) == 0)) [
      | inl e ↦ let this = some-eq (rw e at h) in rw (← this) (ground arith)
      | inr e ↦ absurd (none-some (rw e at h))
    ]

dshield_network-bits :
    (parts : List (List ℕ)) {n : Network} → dshield_network parts ≡ ok n → n.bits ≤ 16
unfolding dshield_network
dshield_network-bits (first ∷ second ∷ third ∷ metadata) {n} h =
    let (start, hs, h1) = >>=-eq-ok (require _ _ >> or_invalid (parse_address first)) _ h in
    let (end, he, h2) = >>=-eq-ok (or_invalid (parse_address second)) _ h1 in
    let (prefix, hp, h3) = >>=-eq-ok (or_invalid (int_of third)) _ h2 in
    let (network, hn, h4) =
      >>=-eq-ok
        (require (leb 16 prefix && leb prefix 32) _ >> or_invalid (strict_network start prefix)) _
        h3 in
    let (inside, strict) = require-eq-ok (leb 16 prefix && leb prefix 32) _ _ hn in
    let (ends, same) = require-eq-ok (broadcast_address network == end) _ _ h4 in
    let this : network ≡ n = ok-injective same in
    rw (← this) (strict_network-bits start prefix (ground arith) (or_invalid-eq-ok _ strict))
dshield_network-bits [] h = cc
dshield_network-bits (first ∷ []) h = cc
dshield_network-bits (first ∷ second ∷ []) h = cc

address_network-bits :
    (parts : List (List ℕ)) {n : Network} → address_network parts ≡ ok n → n.bits ≤ 16
unfolding address_network
address_network-bits [] h = cc
address_network-bits (text ∷ []) {n} h =
    let (address, ha, same) = >>=-eq-ok (or_invalid (parse_address text)) _ h in
    let this : record { index = address; bits = 0 } ≡ n = ok-injective same in
    rw (← this) (omega arith)
address_network-bits (text ∷ other ∷ rest) h = cc

line_network-bits :
    (name : String) (parts : List (List ℕ)) {n : Network}
    → line_network name parts ≡ ok n
    → n.bits ≤ 16
unfolding line_network
line_network-bits name parts h = elim (Bool-cases (name == "dshield")) [
  | inl e ↦ dshield_network-bits parts (rw e at h)
  | inr e ↦ address_network-bits parts (rw e at h)
]

All-snoc {ℓ κ} :
    {A : Type ℓ} (P : A → Type κ) (xs : List A) {x : A} → All P xs → P x → All P (xs ++ x ∷ [])
All-snoc P [] a p = (p, tt)
All-snoc P (y ∷ ys) (q, a) p = (q, All-snoc P ys a p)

module _ (is_global : Network → Bool) where
  -- What the loop asks of each network that it keeps.
  abbrev pub IsPublic : Network → Type 0
  IsPublic n = (is_global n ≡ true) × (is_multicast n ≡ false) × (n.bits ≤ 16)

  pub read_lines-All :
      (name : String) (networks : List Network) (lines : List (List ℕ)) {out : List Network}
      → All IsPublic networks
      → length networks ≤ max_records
      → read_lines is_global name networks lines ≡ ok out
      → All IsPublic out × (length out ≤ max_records)
  unfolding read_lines
  read_lines-All name networks [] good le h = rw (← ok-injective h) (good, le)
  read_lines-All name networks (line ∷ lines) good le h =
      elim (Bool-cases (is_skipped (strip_line line))) [
        | inl e ↦ read_lines-All name networks lines good le (rw (read_lines, e) at h)
        | inr e ↦
            let (network, hn, h1) =
              >>=-eq-ok (line_network name (split_words (strip_line line))) _
                (rw (read_lines, e) at h) in
            let (fine, h2) =
              require-eq-ok (is_global network && not (is_multicast network)) _ _ h1 in
            let (few, h3) =
              require-eq-ok (leb (length (networks ++ network ∷ [])) max_records) _ _ h2 in
            let this : IsPublic network =
              (ground arith, ground arith, line_network-bits name _ hn) in
            read_lines-All name (networks ++ network ∷ []) lines
              (All-snoc IsPublic networks good this) (ground arith) h3
      ]

prefixes_short :
    (is_global : Network → Bool) (networks : List Network)
    → All (IsPublic is_global) networks
    → all (λ n. ltb 0 (prefixlen n)) networks ≡ true
prefixes_short is_global [] good = refl
prefixes_short is_global (n ∷ ns) ((g, m, short), good) =
    rw (prefixes_short is_global ns good) (ground arith)

-- What `canonical` says of the networks: their number is that of a list of networks with the same
-- addresses, and the digest is the digest of that list.
abbrev pub Describes : (List ℕ → String) → Canonical → List Network → Type 0
Describes sha256 content networks =
    (out : List Network) × ((a : ℕ) → covered out a ≡ covered networks a)
    × (content.count ≡ length out)
    × (content.canonical_sha256 ≡ sha256 (encode (join "\n" (map network_text out))))

-- `canonical` of one to 5000 networks, none of them the whole address space, gives a result, and it
-- describes a list of networks that covers the same addresses.
pub canonical-Describes :
    (sha256 : List ℕ → String) (n : Network) (ns : List Network)
    → leb (length (n ∷ ns)) max_records ≡ true
    → all (λ m. ltb 0 (prefixlen m)) (n ∷ ns) ≡ true
    → (content : Canonical) × (canonical sha256 (n ∷ ns) ≡ ok content)
      × Describes sha256 content (n ∷ ns)
unfolding canonical ◌>>=◌
canonical-Describes sha256 n ns few short =
    let (out, e) = collapse_addresses_total (n ∷ ns) in
    (
      _,
      (rw (few, short, e) refl),
      (out, (λ a. covered-collapse_addresses (n ∷ ns) out a e), refl, refl),
    )

err_ok {ℓ} : {A : Type ℓ} {e : String} {a : A} → err e ≡ ok a → ⊥
err_ok h = cc

canonical-eq-ok :
    (sha256 : List ℕ → String) (is_global : Network → Bool) (networks : List Network)
    (content : Canonical)
    → All (IsPublic is_global) networks
    → length networks ≤ max_records
    → canonical sha256 networks ≡ ok content
    → (0 < length networks) × Describes sha256 content networks
unfolding canonical ◌>>=◌
canonical-eq-ok sha256 is_global [] content good few h = absurd (err_ok h)
canonical-eq-ok sha256 is_global (n ∷ ns) content good few h =
    let (made, e, d) =
      canonical-Describes sha256 n ns (ground arith) (prefixes_short is_global (n ∷ ns) good) in
    (omega arith, subst (λ c. Describes sha256 c (n ∷ ns)) (ok-injective (sym e ∙ h)) d)

-- The records of the feed are one to 5000 public networks, and the result describes them.
abbrev pub Reads : (List ℕ → String) → (Network → Bool) → String → List ℕ → Parsed → Type 0
Reads sha256 is_global name bytes p =
    (networks : List Network) × (read_lines is_global name [] (splitlines bytes) ≡ ok networks)
    × All (IsPublic is_global) networks
    × (p.source_records ≡ length networks)
    × (0 < length networks)
    × (length networks ≤ max_records)
    × Describes sha256 p.content networks

-- A feed that `parse_feed` accepts lists at least one and at most 5000 networks, each global and not
-- multicast and with a prefix of 16 bits or more, and the result describes them: the number of
-- records is theirs, and count and digest are those of networks with the same addresses.
pub parse_feed-Describes :
    (sha256 : List ℕ → String) (is_global : Network → Bool) (name : String) (bytes : List ℕ)
    (p : Parsed)
    → parse_feed sha256 is_global name bytes ≡ ok p
    → Reads sha256 is_global name bytes p
unfolding parse_feed
parse_feed-Describes sha256 is_global name bytes p h =
    let (size, h1) =
      require-eq-ok (is_registered name && ltb 0 (length bytes) && leb (length bytes) max_bytes) _ _
        h in
    let (ascii, h2) = require-eq-ok (is_ascii bytes) _ _ h1 in
    let (networks, hn, h3) = >>=-eq-ok (read_lines is_global name [] (splitlines bytes)) _ h2 in
    let (content, hc, h4) = >>=-eq-ok (canonical sha256 networks) _ h3 in
    let (good, few) = read_lines-All is_global name [] (splitlines bytes) tt (omega arith) hn in
    let (some_read, d) = canonical-eq-ok sha256 is_global networks content good few hc in
    subst (λ q. Reads sha256 is_global name bytes q) (ok-injective h4)
      (networks, hn, good, refl, some_read, few, d)
