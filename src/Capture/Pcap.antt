-- ===== src/Capture/Pcap.antt =====
-- `pcap` of security_capture.py: the check of a closed packet file.
pub mod Laws
use homecluster_infra.Base.{
  ℕ, zero, suc, ◌+◌, ◌-◌, ◌*◌, ◌^◌, String, Bool, true, false, ◌&&◌, ◌||◌, not, Option, none, some,
  List, [], ◌∷◌, ◌++◌, ◌==◌, nat_eq, bytes_eq, leb, ltb, length, is_empty, take, drop,
  if◌then◌else◌, Result, ok, err, ◌>>=◌, ◌>>◌, require,
}

-- `LIMIT`
abbrev pub limit : ℕ
limit = 24 + 1000 * (16 + 65535)

-- An unsigned number of `struct.unpack`, the byte of the lowest value first or last.
unfoldable pub word : Bool → List ℕ → ℕ
word little [] = 0
word little (byte ∷ bytes) =
    let rest = word little bytes in
    if little then byte + 256 * rest else byte * 256 ^ length bytes + rest

-- The byte order that the magic number tells.
unfoldable pub endian : List ℕ → Option Bool
endian magic =
    if magic == 212 ∷ 195 ∷ 178 ∷ 161 ∷ []
    then some true
    else if magic == 161 ∷ 178 ∷ 195 ∷ 212 ∷ []
    then some false
    else if magic == 77 ∷ 60 ∷ 178 ∷ 161 ∷ []
    then some true
    else if magic == 161 ∷ 178 ∷ 60 ∷ 77 ∷ []
    then some false
    else none

-- `n` bytes from an offset.
abbrev pub slice : ℕ → ℕ → List ℕ → List ℕ
slice start n bytes = take n (drop start bytes)

-- The two lengths that a record's header states: included in the file, and on the wire.
abbrev pub included_in : Bool → List ℕ → ℕ
included_in little header = word little (slice 8 4 header)

abbrev pub original_in : Bool → List ℕ → ℕ
original_in little header = word little (slice 12 4 header)

abbrev pub truncation : ℕ → ℕ → ℕ
truncation included original = if ltb included original then 1 else 0

-- One record: 1 if it is truncated and 0 if not, and the bytes behind it.
unfoldable pub read_record : Bool → List ℕ → Result (ℕ × List ℕ)
unfolding word take drop
read_record little bytes =
    let header = take 16 bytes in
    let included = included_in little header in
    let original = original_in little header in
    if not (length header == 16)
    then err "pcap_record_header"
    else if ltb 65535 included
        || ltb original included
        || not (length (slice 16 included bytes) == included)
    then err "pcap_record_length"
    else ok (truncation included original, drop included (drop 16 bytes))

-- The loop over the records, `left` being what may still come: the number of packets, and how many of
-- them are truncated.
unfoldable pub read_records : Bool → ℕ → List ℕ → Result (ℕ × ℕ)
unfolding read_record ◌>>=◌
read_records little left [] = ok (0, 0)
read_records little zero (byte ∷ bytes) =
    read_record little (byte ∷ bytes) >>= λ more. err "pcap_packet_limit"
read_records little (suc left) (byte ∷ bytes) = read_record little (byte ∷ bytes) >>= λ found.
    read_records little left found.1 >>= λ others. ok (others.0 + 1, found.0 + others.1)

pub record Summary : Type 0 where
  pub size_bytes : ℕ
  pub packet_count : ℕ
  pub truncated_packet_count : ℕ
  pub snaplen : ℕ
  pub linktype : ℕ
  pub pcap_sha256 : String

-- The numbers of the file's header, the byte order being known, and the records behind it.
unfoldable pub read_body : (List ℕ → String) → Bool → List ℕ → Result Summary
unfolding read_records word take drop ◌>>=◌
read_body digest little bytes =
    let major = word little (slice 4 2 bytes) in
    let minor = word little (slice 6 2 bytes) in
    let snaplen = word little (slice 16 4 bytes) in
    require (major == 2 && minor == 4 && snaplen == 65535) "pcap_header"
    >> (read_records little 1000 (drop 24 bytes) >>= λ counts. ok (record {
      size_bytes = length bytes;
      packet_count = counts.0;
      truncated_packet_count = counts.1;
      snaplen = snaplen;
      linktype = word little (slice 20 4 bytes);
      pcap_sha256 = digest bytes;
    }))

-- `digest` is the SHA-256 of the file.
unfoldable pub pcap : (List ℕ → String) → List ℕ → Result Summary
unfolding endian read_body take
pcap digest bytes =
    if ltb (length bytes) 24 || ltb limit (length bytes)
    then err "pcap_size"
    else elim (endian (take 4 bytes)) [
      | none ↦ err "pcap_magic"
      | some little ↦ read_body digest little bytes
    ]
