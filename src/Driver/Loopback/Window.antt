-- ===== src/Driver/Loopback/Window.antt =====
-- The samples that stand in the loopback buffer from a position on, and what the two loops do to
-- them.
use audioctl.Base.{
  ℕ, zero, suc, ◌+◌, ◌%◌, ◌<◌, ◌≡◌, refl, ap, sym, ◌∙◌, append-nil, append_assoc, List, [], ◌∷◌,
  ◌++◌, length, get_or, set, take, drop, length-set, get_or-set_self, get_or-set_ne, arith,
}
use mathlib.Core.Path.{ap₂}
use audioctl.Base.Float.{Float32, f_zero}
use audioctl.Driver.Loopback.{buffer_size, put_samples, get_samples}

-- The `n` samples from a position below the size on.
abbrev pub window : List Float32 → ℕ → ℕ → List Float32
window buf r zero = []
window buf r (suc n) = get_or buf r f_zero ∷ window buf ((r + 1) % buffer_size) n

pub length-window : (buf : List Float32) (r n : ℕ) → length (window buf r n) ≡ n
length-window buf r zero = refl
length-window buf r (suc n) = ap suc (length-window buf ((r + 1) % buffer_size) n)

pub get_samples_lem :
    (buf : List Float32) (r n : ℕ)
    → r < buffer_size
    → get_samples buf r n ≡ (window buf r n, (r + n) % buffer_size)
unfolding get_samples
get_samples_lem buf r zero h = ground arith
get_samples_lem buf r (suc n) h =
    ground (arith, get_samples_lem buf ((r + 1) % buffer_size) n (omega arith))

-- A window that is read in two parts.
pub take-window : (buf : List Float32) (r n m : ℕ) → take n (window buf r (n + m)) ≡ window buf r n
take-window buf r zero m = refl
take-window buf r (suc n) m =
    ap (λ k. take (suc n) (window buf r k)) {x = suc n + m} {y = suc (n + m)} (omega arith)
    ∙ ap (λ t. get_or buf r f_zero ∷ t) (take-window buf ((r + 1) % buffer_size) n m)

pub drop-window :
    (buf : List Float32) (r n m : ℕ)
    → r < buffer_size
    → drop n (window buf r (n + m)) ≡ window buf ((r + n) % buffer_size) m
drop-window buf r zero m h = ap₂ (window buf) (omega arith) (omega arith)
drop-window buf r (suc n) m h =
    ap (λ k. drop (suc n) (window buf r k)) {x = suc n + m} {y = suc (n + m)} (omega arith)
    ∙ drop-window buf ((r + 1) % buffer_size) n m (omega arith)
    ∙ ap (λ k. window buf k m) (omega arith)

-- Writing the position behind a window of less than the whole buffer extends it.
window-set :
    (buf : List Float32) (x : Float32) (w r n : ℕ)
    → length buf ≡ buffer_size
    → r < buffer_size
    → n < buffer_size
    → w ≡ (r + n) % buffer_size
    → window (set buf w x) r (suc n) ≡ window buf r n ++ (x ∷ [])
window-set buf x w r zero len low small e =
    ap (λ t. t ∷ [])
      (ap (λ k. get_or (set buf w x) k f_zero) (omega arith)
        ∙ get_or-set_self buf w x f_zero (omega arith))
window-set buf x w r (suc n) len low small e =
    ap₂ ◌∷◌ (get_or-set_ne buf w r x f_zero (omega arith))
      (window-set buf x w ((r + 1) % buffer_size) n len (omega arith) (omega arith) (omega arith))

-- The loop of WriteMix behind `n` samples, where all that it writes still fits.
pub put_samples_lem :
    (buf : List Float32) (w r n : ℕ) (xs : List Float32)
    → length buf ≡ buffer_size
    → r < buffer_size
    → n + length xs < buffer_size
    → w ≡ (r + n) % buffer_size
    → window (put_samples buf w xs).0 r (n + length xs) ≡ window buf r n ++ xs
unfolding put_samples
put_samples_lem buf w r n [] len low room e =
    ap (window buf r) (omega arith) ∙ sym (append-nil (window buf r n))
put_samples_lem buf w r n (x ∷ xs) len low room e =
    ap (window (put_samples (set buf w x) ((w + 1) % buffer_size) xs).0 r) (omega arith)
    ∙ put_samples_lem (set buf w x) ((w + 1) % buffer_size) r (suc n) xs (length-set buf w x ∙ len)
        low (omega arith) (omega arith)
    ∙ ap (λ t. t ++ xs) (window-set buf x w r n len low (omega arith) e)
    ∙ append_assoc (window buf r n) (x ∷ []) xs

-- Where the loop leaves the buffer and the position, fitting or not.
pub put_samples_pos :
    (buf : List Float32) (w : ℕ) (xs : List Float32)
    → w < buffer_size
    → (length (put_samples buf w xs).0 ≡ length buf)
      × ((put_samples buf w xs).1 ≡ (w + length xs) % buffer_size)
unfolding put_samples
put_samples_pos buf w [] h = (refl, omega arith)
put_samples_pos buf w (x ∷ xs) h = ground (
  arith,
  length-set buf w x,
  put_samples_pos (set buf w x) ((w + 1) % buffer_size) xs (omega arith),
)
