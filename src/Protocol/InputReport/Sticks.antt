-- ===== src/Protocol/InputReport/Sticks.antt =====
-- The packed stick read back.
use swbt_rs.Base.{
  ℕ, ◌+◌, ◌*◌, ◌/◌, ◌%◌, ◌^◌, ◌≡◌, List, [], ◌∷◌, arith, get_or, bit_and_low, bit_or_fields,
}
use swbt_rs.Input.Stick.{Stick, IsValid}
use swbt_rs.Protocol.InputReport.{pack_stick}

-- A host's reading of three stick bytes: two 12-bit axes.
abbrev pub read_stick : List ℕ → ℕ → Stick
read_stick bytes offset = record {
  x = get_or bytes offset 0 + 256 * (get_or bytes (offset + 1) 0 % 16);
  y = get_or bytes (offset + 1) 0 / 16 + 16 * get_or bytes (offset + 2) 0;
}

pack_as_sum :
    (s : Stick)
    → pack_stick s ≡ s.x % 256 ∷ (s.x / 256 % 256 % 16 + s.y % 256 % 16 * 16) ∷ s.y / 16 % 256 ∷ []
unfolding pack_stick
pack_as_sum s = ground (
  arith,
  bit_and_low 4 (s.x / 2 ^ 8 % 256),
  bit_and_low 4 (s.y % 256),
  bit_or_fields 4 (s.y % 256 % 16) (s.x / 256 % 256 % 16) (omega arith),
)

pub read-pack_stick : (s : Stick) → IsValid s → read_stick (pack_stick s) 0 ≡ s
read-pack_stick s h = rw pack_as_sum (ground arith)
