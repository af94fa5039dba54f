-- ===== src/Router/Ring/WriteSteps.antt =====
-- A write to a valid ring buffer, fitting or not.
use audioctl.Base.{
  ℕ, ◌+◌, ◌-◌, ◌*◌, ◌^◌, ◌≤◌, ◌<◌, ◌≡◌, refl, sym, ap, ◌∙◌, true, false, none, some, List, [], ◌++◌,
  length, take, length-take, ltb, add32, sub32, arith,
}
use native.Mathlib.Nat.{mod-eq_of_lt}
use audioctl.Base.Float.{Float32}
use audioctl.Router.Ring.{RingBuffer, total_samples, occupied, copy_in, write_samples, rb_write}
use audioctl.Router.Ring.Window.{Filled, copy_in_lem}
use audioctl.Router.Ring.Invariant.{
  IsValid, contents, samples_of, occupied_lem, rb_update_stats-IsValid,
}
use audioctl.Router.Ring.Stored.{
  contents-rb_update_stats, write_pos-rb_update_stats, stored_lem, buffer_present,
}

-- A block that fits is appended.
pub write_samples_fits :
    (rb : RingBuffer) (buf : List Float32) (over : ℕ) (src : List Float32) (n : ℕ)
    → rb.buffer ≡ some buf
    → IsValid rb
    → n ≤ length src
    → rb.write_pos - rb.read_pos + n < total_samples
    → rb.write_pos + n < 2 ^ 32
    → let (rb', over') = write_samples rb buf over src n in
      IsValid rb'
      × (rb'.write_pos ≡ rb.write_pos + n)
      × (contents rb' ≡ contents rb ++ take n src)
      × (over' ≡ over)
unfolding write_samples
write_samples_fits rb buf over src n e v enough room low = rw test (
  rb_update_stats-IsValid rb' size new.0 (omega (arith, occupied_lem v)),
  write_pos-rb_update_stats rb' size ∙ moved,
  contents-rb_update_stats rb' size ∙ new.1,
  refl,
)
  where
    test : ltb (sub32 (sub32 rb.capacity 1) (occupied rb)) n ≡ false
    test = ground (arith, occupied_lem v, v.sized)

    xs : List Float32
    xs = take n src

    count : length xs ≡ n
    count = omega (arith, length-take n src)

    size : ℕ
    size = add32 (occupied rb) n

    rb' : RingBuffer
    rb' = record rb {
      buffer = some (copy_in buf rb.write_pos xs).0;
      write_pos = (copy_in buf rb.write_pos xs).1;
    }

    same : samples_of rb ≡ buf
    same = ap (λ b. elim b as (λ _. List Float32) [ none ↦ [] | some bs ↦ bs ]) e

    filled : Filled buf rb.read_pos (rb.write_pos - rb.read_pos) xs (copy_in buf rb.write_pos xs)
    filled =
        copy_in_lem buf rb.write_pos rb.read_pos (rb.write_pos - rb.read_pos) xs
          (ap length (sym same) ∙ v.stored) (omega (arith, count)) (omega (arith, count, v.ordered))
          (omega (arith, v.ordered))

    moved : rb'.write_pos ≡ rb.write_pos + n
    moved = omega (arith, v.ordered, count, filled.moved)

    new : IsValid rb' × (contents rb' ≡ contents rb ++ xs)
    new =
        stored_lem rb xs (copy_in buf rb.write_pos xs) v (omega (arith, count))
          (omega (arith, count)) (rw same filled)

-- A block that does not fit is dropped, and counted.
pub write_samples_full :
    (rb : RingBuffer) (buf : List Float32) (over : ℕ) (src : List Float32) (n : ℕ)
    → IsValid rb
    → n < 2 ^ 32
    → total_samples ≤ rb.write_pos - rb.read_pos + n
    → write_samples rb buf over src n ≡ (rb, add32 over 1)
unfolding write_samples
write_samples_full rb buf over src n v small full = rw test
  where
    test : ltb (sub32 (sub32 rb.capacity 1) (occupied rb)) n ≡ true
    test = ground (arith, occupied_lem v, v.sized)

pub rb_write_step :
    (rb : RingBuffer) (over : ℕ) (src : List Float32) (frames channels : ℕ)
    → IsValid rb
    → frames * channels < 2 ^ 32
    → rb_write rb over (some src) frames channels
      ≡ write_samples rb (samples_of rb) over src (frames * channels)
unfolding rb_write
rb_write_step rb over src frames channels v small =
    ground (arith, buffer_present v, mod-eq_of_lt {n = frames * channels} {m = 2 ^ 32} small)
