-- ===== src/Router/Ring/Window.antt =====
-- The samples that a stretch of positions stands for, and what the two copy loops do to it. The
-- statements hold while the position counter does not pass 2 ^ 32.
use audioctl.Base.{
  ℕ, zero, suc, ◌+◌, ◌%◌, ◌^◌, ◌<◌, ◌≡◌, refl, ap, sym, ◌∙◌, append-nil, add32, List, [], ◌∷◌, ◌++◌,
  append_assoc, length, get_or, set, take, drop, length-set, get_or-set_self, get_or-set_ne, arith,
}
use mathlib.Core.Path.{ap₂}
use audioctl.Base.Float.{Float32, f_zero}
use audioctl.Router.Ring.{total_samples, copy_in, copy_out}
use audioctl.Router.Ring.Mask.{bit_and-buffer_mask}

-- The `n` samples from position `r` on.
abbrev pub window : List Float32 → ℕ → ℕ → List Float32
window buf r zero = []
window buf r (suc n) = get_or buf (r % total_samples) f_zero ∷ window buf (r + 1) n

pub length-window : (buf : List Float32) (r n : ℕ) → length (window buf r n) ≡ n
length-window buf r zero = refl
length-window buf r (suc n) = ap suc (length-window buf (r + 1) n)

-- Writing the position behind a window of less than the whole buffer extends it.
window-set :
    (buf : List Float32) (x : Float32) (w r n : ℕ)
    → length buf ≡ total_samples
    → n < total_samples
    → w ≡ r + n
    → window (set buf (w % total_samples) x) r (suc n) ≡ window buf r n ++ (x ∷ [])
window-set buf x w r zero len small e =
    ap (λ t. t ∷ [])
      (ap (λ k. get_or (set buf (w % total_samples) x) k f_zero) (omega arith)
        ∙ get_or-set_self buf (w % total_samples) x f_zero (omega arith))
window-set buf x w r (suc n) len small e =
    ap₂ ◌∷◌ (get_or-set_ne buf (w % total_samples) (r % total_samples) x f_zero (omega arith))
      (window-set buf x w (r + 1) n len (omega arith) (omega arith))

pub drop-window :
    (buf : List Float32) (r n m : ℕ) → drop n (window buf r (n + m)) ≡ window buf (r + n) m
drop-window buf r zero m = ap₂ (window buf) (omega arith) (omega arith)
drop-window buf r (suc n) m =
    ap (λ k. drop (suc n) (window buf r k)) {x = suc n + m} {y = suc (n + m)} (omega arith)
    ∙ drop-window buf (r + 1) n m
    ∙ ap (λ k. window buf k m) (omega arith)

pub take-window : (buf : List Float32) (r n m : ℕ) → take n (window buf r (n + m)) ≡ window buf r n
take-window buf r zero m = refl
take-window buf r (suc n) m =
    ap (λ k. take (suc n) (window buf r k)) {x = suc n + m} {y = suc (n + m)} (omega arith)
    ∙ ap (λ t. get_or buf (r % total_samples) f_zero ∷ t) (take-window buf (r + 1) n m)

-- `rb_read`'s loop hands out the window and moves the position past it.
pub copy_out_lem :
    (buf : List Float32) (r n : ℕ) → r + n < 2 ^ 32 → copy_out buf r n ≡ (window buf r n, r + n)
unfolding copy_out
copy_out_lem buf r zero h = ground arith
copy_out_lem buf r (suc n) h =
    ground (arith, bit_and-buffer_mask r, copy_out_lem buf (r + 1) n (omega arith))

-- What `rb_write`'s loop does to a buffer whose positions from `r` on hold `n` samples.
pub record Filled (buf : List Float32) (r n : ℕ) (xs : List Float32) (out : List Float32 × ℕ)
    : Type 0 where
  pub size_kept : length out.0 ≡ total_samples
  pub moved : out.1 ≡ r + n + length xs
  pub holds : window out.0 r (n + length xs) ≡ window buf r n ++ xs

-- One turn of the loop before the turns that `out` is the result of.
Filled-cons :
    (buf : List Float32) (w r n : ℕ) (x : Float32) (xs : List Float32) {out : List Float32 × ℕ}
    → length buf ≡ total_samples
    → n < total_samples
    → w ≡ r + n
    → Filled (set buf (w % total_samples) x) r (suc n) xs out
    → Filled buf r n (x ∷ xs) out
Filled-cons buf w r n x xs {out} len small e rest = record {
  size_kept = rest.size_kept;
  moved = omega (arith, rest.moved);
  holds =
      ap (window out.0 r) (omega arith)
      ∙ rest.holds
      ∙ ap (λ t. t ++ xs) (window-set buf x w r n len small e)
      ∙ append_assoc (window buf r n) (x ∷ []) xs;
}

pub copy_in_lem :
    (buf : List Float32) (w r n : ℕ) (xs : List Float32)
    → length buf ≡ total_samples
    → n + length xs < total_samples
    → r + n + length xs < 2 ^ 32
    → w ≡ r + n
    → Filled buf r n xs (copy_in buf w xs)
unfolding copy_in
copy_in_lem buf w r n [] len room low e = record {
  size_kept = len;
  moved = omega arith;
  holds = ap (window buf r) (omega arith) ∙ sym (append-nil (window buf r n));
}
copy_in_lem buf w r n (x ∷ xs) len room low e = rw (bit_and-buffer_mask w) (
    Filled-cons buf w r n x xs len (omega arith) e (
      copy_in_lem (set buf (w % total_samples) x) (add32 w 1) r (suc n) xs
        (length-set buf (w % total_samples) x ∙ len) (omega arith) (omega arith) (omega arith)))
