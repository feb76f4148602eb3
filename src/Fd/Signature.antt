-- ===== src/Fd/Signature.antt =====
-- The descriptor signature of src/uffs_fd.c goes round a cycle.
use esp_uffs.Prelude.{ℕ, zero, suc, ◌+◌, ◌%◌, ◌<◌, ◌≡◌, ◌≢◌, ◌∙◌, arith}
use esp_uffs.Fd.{fd_signature_increase}

-- The signature after `n` formats.
unfoldable pub after_formats : ℕ → ℕ → ℕ
after_formats zero sig = sig
after_formats (suc n) sig = after_formats n (fd_signature_increase sig)

increase-mod : (sig : ℕ) → sig < 102 → fd_signature_increase sig ≡ (sig + 1) % 102
unfolding fd_signature_increase
increase-mod sig h = ground arith

pub after_formats-mod : (n sig : ℕ) → sig < 102 → after_formats n sig ≡ (sig + n) % 102
unfolding after_formats
after_formats-mod zero sig h = omega arith
after_formats-mod (suc n) sig h =
    let step = increase-mod sig h in
    let rest = after_formats-mod n (fd_signature_increase sig) (omega arith) in rest ∙ omega arith

pub after_formats-ne : (n sig : ℕ) → sig < 102 → 0 < n → n < 102 → after_formats n sig ≢ sig
after_formats-ne n sig h low high = let e = after_formats-mod n sig h in omega arith
