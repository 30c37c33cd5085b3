-- ===== src/App/Tags.antt =====
-- The tags of include/app/cg_app.h on pointers.
use compuguessr.Base.{ℕ, ◌+◌, ◌-◌, ◌*◌, ◌^◌, ◌<◌, ◌≡◌, ◌∙◌, arith}
use compuguessr.Base.Bits.{bit_or_comm, bit_or_fields, bit_and_mask, bit_and_fields}
use compuguessr.App.{tag_ptr, untag_ptr, get_tag}

tagged_sum : (ptr t : ℕ) → ptr < 2 ^ 48 → tag_ptr ptr (t * 2 ^ 48) ≡ t * 2 ^ 48 + ptr
tagged_sum ptr t h = bit_or_comm ptr (t * 2 ^ 48) ∙ bit_or_fields 48 t ptr h

-- A pointer of 48 bits and a tag in the 16 bits above are both read back from the tagged pointer.
pub tag_ptr_read :
    (ptr t : ℕ)
    → ptr < 2 ^ 48
    → t < 2 ^ 16
    → (untag_ptr (tag_ptr ptr (t * 2 ^ 48)) ≡ ptr)
      × (get_tag (tag_ptr ptr (t * 2 ^ 48)) ≡ t * 2 ^ 48)
tag_ptr_read ptr t low small = (
  rw (tagged_sum ptr t low) (bit_and_mask 48 (t * 2 ^ 48 + ptr) ∙ omega arith),
  rw (tagged_sum ptr t low)
      (bit_and_fields 48 t ptr (2 ^ 16 - 1) low ∙ rw (bit_and_mask 16 t) (omega arith)),
)
