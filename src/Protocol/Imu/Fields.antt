-- ===== src/Protocol/Imu/Fields.antt =====
-- The bit fields of a quaternion block read back.
use swbt_rs.Base.{
  ℕ, ◌+◌, ◌-◌, ◌*◌, ◌≤◌, ◌<◌, ◌≡◌, refl, ◌∙◌, sym, ap, ◌⊎◌, Bool, true, false, ◌&&◌, List, [], ◌∷◌,
  ◌++◌, arith, ltb, leb, if◌then◌else◌, length, get_or, bit_at,
}
use swbt_rs.Protocol.PutBits.{block_bit, put_bits, put_bits_lem, put_bits_byte, length-put_bits}
use swbt_rs.Protocol.Imu.Quaternion.{BitField, put_fields}

-- The field covers bit `p`.
abbrev pub covers : BitField → ℕ → Bool
covers field p = leb field.start p && ltb p (field.start + field.width)

abbrev pub uncovered : List BitField → ℕ → Bool
uncovered [] p = true
uncovered (field ∷ rest) p = if covers field p then false else uncovered rest p

abbrev pub Fits : List BitField → ℕ → Type 0
Fits [] n = Unit {0}
Fits (field ∷ rest) n = (field.start + field.width ≤ 8 * n) × Fits rest n

pub length-put_fields :
    (fields : List BitField) (block : List ℕ) → length (put_fields fields block) ≡ length block
unfolding put_fields
length-put_fields [] block = refl
length-put_fields (field ∷ rest) block =
    length-put_fields rest (put_bits block field.start field.width field.value)
    ∙ length-put_bits block field.start field.width field.value

Fits-same : (fields : List BitField) (n m : ℕ) → n ≡ m → Fits fields n → Fits fields m
Fits-same [] n m e h = tt
Fits-same (field ∷ rest) n m e (h, hs) = (omega arith, Fits-same rest n m e hs)

-- A bit that no field covers stays.
pub put_fields-uncovered :
    (fields : List BitField) (block : List ℕ) (p : ℕ)
    → Fits fields (length block)
    → uncovered fields p ≡ true
    → block_bit (put_fields fields block) p ≡ block_bit block p
unfolding put_fields
put_fields-uncovered [] block p h u = refl
put_fields-uncovered (field ∷ rest) block p (h, hs) u =
    let block' = put_bits block field.start field.width field.value in
    let same = length-put_bits block field.start field.width field.value in
    put_fields-uncovered rest block' p (Fits-same rest (length block) (length block') (sym same) hs)
      (ground arith)
    ∙ put_bits_lem block field.start field.width field.value p h
    ∙ ground arith

shifted : (s i v : ℕ) → bit_at (s + i - s) v ≡ bit_at i v
shifted s i v = ap (λ (n : ℕ). bit_at n v) (omega arith)

-- A bit that one field covers, that the others do not, and that was zero, is that field's.
pub put_fields_covered :
    (before : List BitField) (field : BitField) (rest : List BitField) (block : List ℕ) (i : ℕ)
    → Fits (before ++ (field ∷ rest)) (length block)
    → uncovered before (field.start + i) ≡ true
    → uncovered rest (field.start + i) ≡ true
    → block_bit block (field.start + i) ≡ 0
    → i < field.width
    → block_bit (put_fields (before ++ (field ∷ rest)) block) (field.start + i)
      ≡ bit_at i field.value
unfolding put_fields
put_fields_covered [] field rest block i (h, hs) ub ur z lt =
    let block' = put_bits block field.start field.width field.value in
    let same = length-put_bits block field.start field.width field.value in
    put_fields-uncovered rest block' (field.start + i)
      (Fits-same rest (length block) (length block') (sym same) hs) ur
    ∙ put_bits_lem block field.start field.width field.value (field.start + i) h
    ∙ ground (arith, shifted field.start i field.value)
put_fields_covered (first ∷ before) field rest block i (h, hs) ub ur z lt =
    let block' = put_bits block first.start first.width first.value in
    let same = length-put_bits block first.start first.width first.value in
    put_fields_covered before field rest block' i
      (Fits-same (before ++ (field ∷ rest)) (length block) (length block') (sym same) hs)
      (ground arith) ur
      (put_bits_lem block first.start first.width first.value (field.start + i) h ∙ ground arith) lt

abbrev pub Spares : List BitField → ℕ → Type 0
Spares [] j = Unit {0}
Spares (field ∷ rest) j =
    ((j * 8 + 8 ≤ field.start) ⊎ (field.start + field.width ≤ j * 8)) × Spares rest j

-- A byte that no field reaches stays.
pub put_fields_byte :
    (fields : List BitField) (block : List ℕ) (j : ℕ)
    → Fits fields (length block)
    → Spares fields j
    → get_or (put_fields fields block) j 0 ≡ get_or block j 0
unfolding put_fields
put_fields_byte [] block j h u = refl
put_fields_byte (field ∷ rest) block j (h, hs) (u, us) =
    let block' = put_bits block field.start field.width field.value in
    let same = length-put_bits block field.start field.width field.value in
    put_fields_byte rest block' j (Fits-same rest (length block) (length block') (sym same) hs) us
    ∙ put_bits_byte block field.start field.width field.value j h u
