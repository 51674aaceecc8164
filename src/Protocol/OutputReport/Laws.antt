-- ===== src/Protocol/OutputReport/Laws.antt =====
-- What `parse_output_report` accepts, and what it makes of it.
use swbt_rs.Base.{
  ℕ, ◌<◌, ◌≤◌, ◌≡◌, ◌≢◌, ◌⊎◌, inl, inr, refl, sym, ap, ◌∙◌, false, Bool-cases, ltb→lt, ==_iff,
  get_or, get_or-append, drop-append_suc, take-append, length-append, suc, drop-cons, length-take,
  List, [], ◌∷◌, ◌++◌, arith, length, take, drop, take-append-drop, ok, err, ltb, ◌==◌,
}
use mathlib.Core.Path.{subst}
use swbt_rs.Protocol.Error.{
  ProtocolResult, output_report_empty, unsupported_output_report, truncated_output_report,
}
use swbt_rs.Protocol.OutputReport.{
  OutputReport, subcommand, rumble_only, SubcommandRequest, parse_output_report, RawRumble,
}

-- The bytes that a parsed report stands for, before whatever follows a rumble report.
abbrev pub bytes_of : OutputReport → List ℕ → List ℕ
bytes_of (subcommand packet rumble request) rest =
    0x01 ∷ packet ∷ (rumble ++ (request.id ∷ request.payload))
bytes_of (rumble_only packet rumble) rest = 0x10 ∷ packet ∷ (rumble ++ rest)

abbrev pub rumble_bytes : OutputReport → RawRumble
rumble_bytes (subcommand packet rumble request) = rumble
rumble_bytes (rumble_only packet rumble) = rumble

-- A description of the answer to each report.
abbrev pub Parses : List ℕ → ProtocolResult OutputReport → Type 0
Parses raw (ok report) =
    (length (rumble_bytes report) ≡ 8) × ((rest : List ℕ) × (raw ≡ bytes_of report rest))
Parses raw (err output_report_empty) = raw ≡ []
Parses raw (err (unsupported_output_report id)) =
    (id ≢ 0x01) × (id ≢ 0x10) × ((rest : List ℕ) × (raw ≡ id ∷ rest))
Parses raw (err (truncated_output_report id minimum actual)) =
    (actual ≡ length raw)
    × (actual < minimum)
    × (((id ≡ 0x01) × (minimum ≡ 11)) ⊎ ((id ≡ 0x10) × (minimum ≡ 10)))
    × ((rest : List ℕ) × (raw ≡ id ∷ rest))
Parses raw (err _) = ⊥

subcommand_rest :
    (p : ℕ) (r : List ℕ) → 9 ≤ length r → p ∷ r ≡ p ∷ (take 8 r ++ (get_or r 8 0 ∷ drop 9 r))
subcommand_rest p r h =
    ap (λ (t : List ℕ). p ∷ t)
      (sym (take-append-drop 8 r) ∙ ap (λ (t : List ℕ). take 8 r ++ t) (drop-cons 8 r 0 h))

parse_subcommand_sound : (rest : List ℕ) → Parses (0x01 ∷ rest) (parse_output_report (0x01 ∷ rest))
unfolding parse_output_report
parse_subcommand_sound [] = ground arith
parse_subcommand_sound (p ∷ r) = elim (Bool-cases (ltb (length (0x01 ∷ p ∷ r)) 11)) [
  | inl short ↦ rw short (refl, omega (arith, ltb→lt _ _ short), inl (refl, refl), (p ∷ r, refl))
  | inr long ↦ rw long (
    omega (arith, length-take 8 r, enough p r long),
    (r, ap (λ (t : List ℕ). 0x01 ∷ t) (subcommand_rest p r (enough p r long))),
  )
]
  where
    enough : (p : ℕ) (r : List ℕ) → ltb (length (0x01 ∷ p ∷ r)) 11 ≡ false → 9 ≤ length r
    enough p r h = ground arith

parse_rumble_sound : (rest : List ℕ) → Parses (0x10 ∷ rest) (parse_output_report (0x10 ∷ rest))
unfolding parse_output_report
parse_rumble_sound [] = ground arith
parse_rumble_sound (p ∷ r) = elim (Bool-cases (ltb (length (0x10 ∷ p ∷ r)) 10)) [
  | inl short ↦ rw short (refl, omega (arith, ltb→lt _ _ short), inr (refl, refl), (p ∷ r, refl))
  | inr long ↦ rw long (
    omega (arith, length-take 8 r, enough p r long),
    (drop 8 r, ap (λ (t : List ℕ). 0x10 ∷ p ∷ t) (sym (take-append-drop 8 r))),
  )
]
  where
    enough : (p : ℕ) (r : List ℕ) → ltb (length (0x10 ∷ p ∷ r)) 10 ≡ false → 8 ≤ length r
    enough p r h = ground arith

-- Every report is answered as follows: an empty one by `output_report_empty`, one with another
-- first byte than 0x01 and 0x10 by `unsupported_output_report` with that byte, one that is shorter
-- than 11 bytes (0x01) or 10 bytes (0x10) by `truncated_output_report` with the exact numbers, and
-- any other by a report whose rumble has eight bytes and whose identifier, packet, rumble and, for
-- 0x01, subcommand and payload are the bytes of the report in order, where bytes that follow the
-- rumble of a 0x10 report are ignored.
pub parse-Parses : (raw : List ℕ) → Parses raw (parse_output_report raw)
parse-Parses [] = unfold parse_output_report in refl
parse-Parses (id ∷ rest) = elim (Bool-cases (id == 0x01)) [
  | inl e ↦
      subst (λ (n : ℕ). Parses (n ∷ rest) (parse_output_report (n ∷ rest)))
        (sym ((==_iff id 0x01).0 e)) (parse_subcommand_sound rest)
  | inr no_subcommand ↦ elim (Bool-cases (id == 0x10)) [
    | inl e ↦
        subst (λ (n : ℕ). Parses (n ∷ rest) (parse_output_report (n ∷ rest)))
          (sym ((==_iff id 0x10).0 e)) (parse_rumble_sound rest)
    | inr no_rumble ↦
        unfold parse_output_report in
        rw (no_subcommand, no_rumble) (ground arith, ground arith, (rest, refl))
  ]
]

-- A subcommand report that is put together from a packet number, eight rumble bytes, a subcommand
-- and a payload of any length is parsed back to exactly these parts.
pub parse-bytes_of :
    (packet : ℕ) (rumble : RawRumble) (request : SubcommandRequest)
    → length rumble ≡ 8
    → parse_output_report (bytes_of (subcommand packet rumble request) [])
      ≡ ok (subcommand packet rumble request)
unfolding parse_output_report
parse-bytes_of packet rumble request h =
    let tail : List ℕ = request.id ∷ request.payload in
    let fields : take 8 (rumble ++ tail) ≡ rumble =
      subst (λ (n : ℕ). take n (rumble ++ tail) ≡ rumble) h (take-append rumble tail) in
    let id : get_or (rumble ++ tail) 8 0 ≡ request.id =
      subst (λ (n : ℕ). get_or (rumble ++ tail) n 0 ≡ request.id) h
        (get_or-append rumble request.id request.payload 0) in
    let rest : drop 9 (rumble ++ tail) ≡ request.payload =
      subst (λ (n : ℕ). drop (suc n) (rumble ++ tail) ≡ request.payload) h
        (drop-append_suc rumble request.id request.payload) in
    ground (arith, fields, id, rest, length-append rumble tail)
