-- ===== src/Capture/Pcap/Laws.antt =====
-- What the check of a packet file accepts, against a description of its records.
use homecluster_infra.Base.{
  ℕ, zero, suc, ◌+◌, ◌≤◌, ◌≡◌, ◌↔◌, refl, sym, ap, ◌∙◌, subst, String, Bool, false, ◌||◌, not, some,
  List, [], ◌∷◌, ◌++◌, ◌==◌, nat_eq, bytes_eq, ltb, length, take, drop, take-append, drop-append,
  ok, arith, Bool-cases, Option-cases, inl, inr, >>=-eq-ok, require-eq-ok, ok-injective, err-ok,
  ltb_of_le,
}
use homecluster_infra.Capture.Pcap.{
  limit, word, endian, slice, included_in, original_in, truncation, read_record, read_records,
  Summary, read_body, pcap,
}

-- Bytes that are records one behind the other: their number, and how many are truncated. Each has
-- a header of 16 bytes that states the length of the data behind it, at most 65535 and at most the
-- length on the wire.
pub data AreRecords (little : Bool) : List ℕ → ℕ → ℕ → Type 0 where
  finished : AreRecords little [] 0 0
  then_record :
      (header body : List ℕ) {rest : List ℕ} {count truncated : ℕ}
      → length header ≡ 16
      → included_in little header ≡ length body
      → length body ≤ 65535
      → length body ≤ original_in little header
      → AreRecords little rest count truncated
      → AreRecords little
          (header ++ (body ++ rest))
          (count + 1)
          (truncation (length body) (original_in little header) + truncated)

take-drop : (n : ℕ) (s : List ℕ) → take n s ++ drop n s ≡ s
unfolding take drop
take-drop zero s = refl
take-drop (suc n) [] = refl
take-drop (suc n) (x ∷ s) = ap (λ r. x ∷ r) (take-drop n s)

-- A record that is read, and the bytes that it is made of.
read_record-ok :
    (little : Bool) (bytes : List ℕ) {found : ℕ × List ℕ}
    → read_record little bytes ≡ ok found
    → (body : List ℕ) × (bytes ≡ take 16 bytes ++ (body ++ found.1))
      × (length (take 16 bytes) ≡ 16)
      × (included_in little (take 16 bytes) ≡ length body)
      × (length body ≤ 65535)
      × (length body ≤ original_in little (take 16 bytes))
      × (found.0 ≡ truncation (length body) (original_in little (take 16 bytes)))
unfolding read_record
read_record-ok little bytes {found} h =
    let header = take 16 bytes in
    let included = included_in little header in
    let original = original_in little header in
    let body = slice 16 included bytes in
    elim (Bool-cases (not (length header == 16))) [
      | inl e ↦ absurd (err-ok (rw (read_record, e) at h))
      | inr e ↦
          elim (Bool-cases
            (ltb 65535 included || ltb original included || not (length body == included))) [
              | inl f ↦ absurd (err-ok (rw (read_record, e, f) at h))
              | inr f ↦
                  let this : (truncation included original, drop included (drop 16 bytes)) ≡ found =
                    ok-injective (rw (read_record, e, f) at h) in
                  let size : length body ≡ included = ground (arith, f) in
                  (
                    body,
                    sym (take-drop 16 bytes)
                        ∙ ap (λ r. header ++ r)
                            (sym (take-drop included (drop 16 bytes))
                              ∙ ap (λ (r : ℕ × List ℕ). body ++ r.1) this),
                    ground (arith, e),
                    sym size,
                    ground (arith, f, size),
                    ground (arith, f, size),
                    sym (ap (λ (r : ℕ × List ℕ). r.0) this)
                        ∙ ap (λ n. truncation n original) (sym size),
                  )
            ]
    ]

-- A record is read as what it is.
read_record-record :
    (little : Bool) (header body rest : List ℕ)
    → length header ≡ 16
    → included_in little header ≡ length body
    → length body ≤ 65535
    → length body ≤ original_in little header
    → read_record little (header ++ (body ++ rest))
      ≡ ok (truncation (length body) (original_in little header), rest)
unfolding read_record word
read_record-record little header body rest size states short fits =
    let header_bytes : take 16 (header ++ (body ++ rest)) ≡ header =
      subst (λ n. take n (header ++ (body ++ rest)) ≡ header) size
        (take-append header (body ++ rest)) in
    let behind : drop 16 (header ++ (body ++ rest)) ≡ body ++ rest =
      subst (λ n. drop n (header ++ (body ++ rest)) ≡ body ++ rest) size
        (drop-append header (body ++ rest)) in
    let small : ltb 65535 (length body) ≡ false = ltb_of_le short in
    let within : ltb (original_in little header) (length body) ≡ false = ltb_of_le fits in
    rw
      (
        read_record,
        header_bytes,
        behind,
        size,
        states,
        take-append body rest,
        drop-append body rest,
        small,
        within,
      )
      (ground arith)

-- One more record in front.
AreRecords-more :
    (little : Bool) (bytes header body : List ℕ) (short_one : ℕ) (others : ℕ × ℕ) (rest : List ℕ)
    {counts : ℕ × ℕ}
    → bytes ≡ header ++ (body ++ rest)
    → length header ≡ 16
    → included_in little header ≡ length body
    → length body ≤ 65535
    → length body ≤ original_in little header
    → short_one ≡ truncation (length body) (original_in little header)
    → AreRecords little rest others.0 others.1
    → (others.0 + 1, short_one + others.1) ≡ counts
    → AreRecords little bytes counts.0 counts.1
AreRecords-more little bytes header body short_one others rest all_bytes size states short fits
      counted records this =
    subst (λ (c : ℕ × ℕ). AreRecords little bytes c.0 c.1) this
      (subst (λ b. AreRecords little b (others.0 + 1) (short_one + others.1)) (sym all_bytes)
        (subst (λ n. AreRecords little (header ++ (body ++ rest)) (others.0 + 1) (n + others.1))
          (sym counted) (then_record header body size states short fits records)))

pub read_records_sound :
    (little : Bool) (left : ℕ) (bytes : List ℕ) {counts : ℕ × ℕ}
    → read_records little left bytes ≡ ok counts
    → AreRecords little bytes counts.0 counts.1 × (counts.0 ≤ left)
unfolding read_records
read_records_sound little left [] h =
    subst (λ (c : ℕ × ℕ). AreRecords little [] c.0 c.1 × (c.0 ≤ left)) (ok-injective h)
      (finished, omega arith)
read_records_sound little zero (byte ∷ bytes) h =
    let (_, _, never) = >>=-eq-ok (read_record little (byte ∷ bytes)) _ h in absurd (err-ok never)
read_records_sound little (suc left) (byte ∷ bytes) h =
    let (found, first, h1) = >>=-eq-ok (read_record little (byte ∷ bytes)) _ h in
    let (others, rest, h2) = >>=-eq-ok (read_records little left found.1) _ h1 in
    let (body, all_bytes, size, states, short, fits, counted) =
      read_record-ok little (byte ∷ bytes) first in
    let (records, few) = read_records_sound little left found.1 rest in
    (
      AreRecords-more little (byte ∷ bytes) (take 16 (byte ∷ bytes)) body found.0 others found.1
          all_bytes size states short fits counted records (ok-injective h2),
      subst (λ (c : ℕ × ℕ). c.0 ≤ suc left) (ok-injective h2) (omega (arith, few)),
    )

pub read_records_complete :
    (little : Bool) (left : ℕ) {bytes : List ℕ} {count truncated : ℕ}
    → AreRecords little bytes count truncated
    → count ≤ left
    → read_records little left bytes ≡ ok (count, truncated)
unfolding read_records
read_records_complete little left finished few = refl
read_records_complete little zero (then_record header body size states short fits records) few =
    absurd (omega arith)
read_records_complete little (suc left) (then_record [] body size states short fits records) few =
    absurd (omega arith)
read_records_complete little (suc left)
      (then_record (byte ∷ header) body {rest} size states short fits records) few =
    rw
      (
        read_record-record little (byte ∷ header) body rest size states short fits,
        read_records_complete little left records (omega arith),
      )
      refl

-- The loop over the records accepts bytes, with a number of packets and one of truncated packets,
-- exactly if the bytes are that many records one behind the other, at most 1000, each with a header
-- of 16 bytes that states the length of the data behind it, which is at most 65535 and at most the
-- length on the wire, and that many of them are truncated.
pub read_records_iff :
    (little : Bool) (bytes : List ℕ) (count truncated : ℕ)
    → (read_records little 1000 bytes ≡ ok (count, truncated))
      ↔ (AreRecords little bytes count truncated × (count ≤ 1000))
read_records_iff little bytes count truncated = (
  read_records_sound little 1000 bytes,
  λ (records, few). read_records_complete little 1000 records few,
)

read_body-ok :
    (digest : List ℕ → String) (little : Bool) (bytes : List ℕ) {summary : Summary}
    → read_body digest little bytes ≡ ok summary
    → AreRecords little (drop 24 bytes) summary.packet_count summary.truncated_packet_count
      × (summary.packet_count ≤ 1000)
      × (summary.size_bytes ≡ length bytes)
      × (summary.pcap_sha256 ≡ digest bytes)
unfolding read_body
read_body-ok digest little bytes h =
    let (_, h1) = require-eq-ok _ "pcap_header" _ h in
    let (counts, read, h2) = >>=-eq-ok (read_records little 1000 (drop 24 bytes)) _ h1 in
    let (records, few) = read_records_sound little 1000 (drop 24 bytes) read in
    subst
      (λ (s : Summary).
        AreRecords little (drop 24 bytes) s.packet_count s.truncated_packet_count
        × (s.packet_count ≤ 1000)
        × (s.size_bytes ≡ length bytes)
        × (s.pcap_sha256 ≡ digest bytes))
      (ok-injective h2) (records, few, refl, refl)

within_limits : (n low high : ℕ) → (ltb n low || ltb high n) ≡ false → (low ≤ n) × (n ≤ high)
within_limits n low high h = (ground (arith, h), ground (arith, h))

-- A packet file that the check accepts has at least 24 and at most the limit of bytes and a known
-- magic number, the bytes behind its header are records, at most 1000, and the summary states their
-- number, how many are truncated, the size and the SHA-256 of the file.
pub pcap-AreRecords :
    (digest : List ℕ → String) (bytes : List ℕ) {summary : Summary}
    → pcap digest bytes ≡ ok summary
    → (little : Bool) × (endian (take 4 bytes) ≡ some little)
      × (24 ≤ length bytes)
      × (length bytes ≤ limit)
      × AreRecords little (drop 24 bytes) summary.packet_count summary.truncated_packet_count
      × (summary.packet_count ≤ 1000)
      × (summary.size_bytes ≡ length bytes)
      × (summary.pcap_sha256 ≡ digest bytes)
unfolding pcap
pcap-AreRecords digest bytes h =
    elim (Bool-cases (ltb (length bytes) 24 || ltb limit (length bytes))) [
      | inl e ↦ absurd (err-ok (rw e at h))
      | inr e ↦ elim (Option-cases (endian (take 4 bytes))) [
        | inl f ↦ absurd (err-ok (rw (e, f) at h))
        | inr (little, f) ↦
            let (records, few, size, hash) = read_body-ok digest little bytes (rw (e, f) at h) in
            let (large, small) = within_limits (length bytes) 24 limit e in
            (little, f, large, small, records, few, size, hash)
      ]
    ]
