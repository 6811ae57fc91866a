-- ===== src/WebSocket/Frame/Mask.antt =====
-- Masking.
use uvhttp.Prelude.{ℕ, ◌+◌, ◌≡◌, refl, List, [], ◌∷◌, length, bit_xor_twice, arith}
use uvhttp.WebSocket.Frame.{mask_from, apply_mask}

mask_from_twice : (i : ℕ) (key bytes : List ℕ) → mask_from i key (mask_from i key bytes) ≡ bytes
unfolding mask_from
mask_from_twice i key [] = refl
mask_from_twice i key (b ∷ bs) = rw (bit_xor_twice, mask_from_twice (i + 1) key bs)

-- Masking a payload twice with one key gives the payload back, whatever the key.
pub apply_mask_twice : (key bytes : List ℕ) → apply_mask key (apply_mask key bytes) ≡ bytes
unfolding apply_mask
apply_mask_twice key bytes = mask_from_twice 0 key bytes

length-mask_from : (i : ℕ) (key bytes : List ℕ) → length (mask_from i key bytes) ≡ length bytes
unfolding mask_from
length-mask_from i key [] = refl
length-mask_from i key (b ∷ bs) = omega (arith, length-mask_from (i + 1) key bs)

pub length-apply_mask : (key bytes : List ℕ) → length (apply_mask key bytes) ≡ length bytes
unfolding apply_mask
length-apply_mask key bytes = length-mask_from 0 key bytes
