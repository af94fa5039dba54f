-- ===== src/Driver/Device/Output.antt =====
-- The samples that the device puts out.
use audioctl.Base.{
  true, length, ◌≤◌, ap, ◌∙◌, ◌⊎◌, ℕ, zero, suc, ◌≡◌, refl, ◌≢◌, false, ◌||◌, some, List, [], ◌∷◌,
  map, take, drop, All, if◌then◌else◌, mul32, ◌==◌, Bool-cases, inl, inr, arith, if_either,
}
use audioctl.Base.Float.{Float32, f_zero, f_one, f_minus_one, f_hundred, flt, fle}
use audioctl.Base.Status.{no_err, not_running_error, illegal_operation_error}
use audioctl.Driver.Device.{
  running, VirtualAudioDevice, OutputBuffer, zero_samples, clamp_sample, apply_volume_and_clamp,
  process_buffer, virtual_device_process_output,
}
use audioctl.Driver.Device.State.{is_running, running_cases}

-- A sample that is not above 1 and not below -1, as a NaN too is.
abbrev pub IsBounded : Float32 → Type 0
IsBounded x = (flt f_one x ≡ false) × (flt x f_minus_one ≡ false)

zero_samples-IsBounded : (n : ℕ) (xs : List Float32) → All IsBounded (take n (zero_samples n xs))
unfolding zero_samples
zero_samples-IsBounded zero xs = tt
zero_samples-IsBounded (suc n) [] = tt
zero_samples-IsBounded (suc n) (x ∷ xs) = ((refl, refl), zero_samples-IsBounded n xs)

zero_samples-rest : (n : ℕ) (xs : List Float32) → drop n (zero_samples n xs) ≡ drop n xs
unfolding zero_samples
zero_samples-rest zero xs = refl
zero_samples-rest (suc n) [] = refl
zero_samples-rest (suc n) (x ∷ xs) = zero_samples-rest n xs

clamp_sample-IsBounded : (x : Float32) → IsBounded (clamp_sample x)
clamp_sample-IsBounded x = ground arith

length-map-take :
    (f : Float32 → Float32) (n : ℕ) (xs : List Float32)
    → n ≤ length xs
    → length (map f (take n xs)) ≡ n
length-map-take f zero xs room = refl
length-map-take f (suc n) [] room = absurd (omega (arith, room))
length-map-take f (suc n) (x ∷ xs) room =
    omega (arith, length-map-take f n xs (omega (arith, room)))

module _ (fmul fdiv : Float32 → Float32 → Float32) where
  apply_volume-IsBounded :
      (n : ℕ) (xs : List Float32) (scale : Float32)
      → All IsBounded (take n (apply_volume_and_clamp fmul fdiv xs n scale))
  unfolding apply_volume_and_clamp
  apply_volume-IsBounded zero xs scale = tt
  apply_volume-IsBounded (suc n) [] scale = tt
  apply_volume-IsBounded (suc n) (x ∷ xs) scale =
      (clamp_sample-IsBounded (fmul x scale), apply_volume-IsBounded n xs scale)

  apply_volume-rest :
      (n : ℕ) (xs : List Float32) (scale : Float32)
      → drop n (apply_volume_and_clamp fmul fdiv xs n scale) ≡ drop n xs
  unfolding apply_volume_and_clamp
  apply_volume-rest zero xs scale = refl
  apply_volume-rest (suc n) [] scale = refl
  apply_volume-rest (suc n) (x ∷ xs) scale = apply_volume-rest n xs scale

  -- A sample behind the volume: silence under mute or at a volume of 0 or less, and else the product
  -- with the volume in percent, within -1 and 1.
  abbrev pub expected : VirtualAudioDevice → Float32 → Float32
  expected d x =
      let y = fmul x (fdiv d.volume_control_value f_hundred) in
      if d.mute_state || fle d.volume_control_value f_zero
      then 0
      else if flt f_one y
      then f_one
      else if flt y f_minus_one
      then f_minus_one
      else y

  -- What a processed buffer has to be: each sample the expected one and bounded, the memory behind
  -- them untouched, and its size that of the samples.
  pub record IsProcessed (d : VirtualAudioDevice) (frame_count : ℕ) (buffer result : OutputBuffer)
      : Type 0 where
    pub exact :
        take (mul32 frame_count buffer.number_channels) result.samples
        ≡ map (expected d) (take (mul32 frame_count buffer.number_channels) buffer.samples)
    pub bounded : All IsBounded (take (mul32 frame_count buffer.number_channels) result.samples)
    pub rest :
        drop (mul32 frame_count buffer.number_channels) result.samples
        ≡ drop (mul32 frame_count buffer.number_channels) buffer.samples
    pub whole :
        length (take (mul32 frame_count buffer.number_channels) result.samples)
        ≡ mul32 frame_count buffer.number_channels
    pub size : result.data_byte_size ≡ mul32 (mul32 frame_count buffer.number_channels) 4

  -- The memory of a buffer has room for the samples.
  abbrev pub HasRoom : ℕ → OutputBuffer → Type 0
  HasRoom frame_count buffer = mul32 frame_count buffer.number_channels ≤ length buffer.samples

  zero_samples_lem :
      (d : VirtualAudioDevice) (n : ℕ) (xs : List Float32)
      → (d.mute_state || fle d.volume_control_value f_zero) ≡ true
      → take n (zero_samples n xs) ≡ map (expected d) (take n xs)
  unfolding zero_samples
  zero_samples_lem d zero xs quiet = refl
  zero_samples_lem d (suc n) [] quiet = refl
  zero_samples_lem d (suc n) (x ∷ xs) quiet = ground (arith, quiet, zero_samples_lem d n xs quiet)

  apply_volume_lem :
      (d : VirtualAudioDevice) (n : ℕ) (xs : List Float32)
      → (d.mute_state || fle d.volume_control_value f_zero) ≡ false
      → take n (apply_volume_and_clamp fmul fdiv xs n (fdiv d.volume_control_value f_hundred))
        ≡ map (expected d) (take n xs)
  unfolding apply_volume_and_clamp
  apply_volume_lem d zero xs loud = refl
  apply_volume_lem d (suc n) [] loud = refl
  apply_volume_lem d (suc n) (x ∷ xs) loud = ground (arith, loud, apply_volume_lem d n xs loud)

  processed :
      (d : VirtualAudioDevice) (frame_count : ℕ) (buffer : OutputBuffer)
      → take
          (mul32 frame_count buffer.number_channels)
          (process_buffer fmul fdiv d frame_count buffer).samples
        ≡ map (expected d) (take (mul32 frame_count buffer.number_channels) buffer.samples)
  unfolding process_buffer
  processed d frame_count buffer =
      let n = mul32 frame_count buffer.number_channels in
      elim (Bool-cases (d.mute_state || fle d.volume_control_value f_zero)) [
        | inl quiet ↦ ground (arith, quiet, zero_samples_lem d n buffer.samples quiet)
        | inr loud ↦ ground (arith, loud, apply_volume_lem d n buffer.samples loud)
      ]

  process_buffer-IsProcessed :
      (d : VirtualAudioDevice) (frame_count : ℕ) (buffer : OutputBuffer)
      → HasRoom frame_count buffer
      → IsProcessed d frame_count buffer (process_buffer fmul fdiv d frame_count buffer)
  unfolding process_buffer
  process_buffer-IsProcessed d frame_count buffer room =
      let n = mul32 frame_count buffer.number_channels in
      let quiet = d.mute_state || fle d.volume_control_value f_zero in
      let scale = if d.mute_state then f_zero else fdiv d.volume_control_value f_hundred in
      record {
        exact = processed d frame_count buffer;
        bounded =
            if_either (λ (xs : List Float32). All IsBounded (take n xs)) quiet _ _
              (zero_samples-IsBounded n buffer.samples)
              (apply_volume-IsBounded n buffer.samples scale);
        rest =
            if_either (λ (xs : List Float32). drop n xs ≡ drop n buffer.samples) quiet _ _
              (zero_samples-rest n buffer.samples) (apply_volume-rest n buffer.samples scale);
        whole =
            ap length (processed d frame_count buffer)
            ∙ length-map-take (expected d) n buffer.samples room;
        size = refl;
      }

  pub AreProcessed : VirtualAudioDevice → ℕ → List OutputBuffer → List OutputBuffer → Type 0
  AreProcessed d frame_count [] [] = Unit
  AreProcessed d frame_count [] (r ∷ rs) = ⊥
  AreProcessed d frame_count (b ∷ bs) [] = ⊥
  AreProcessed d frame_count (b ∷ bs) (r ∷ rs) =
      IsProcessed d frame_count b r × AreProcessed d frame_count bs rs

  process_each :
      (d : VirtualAudioDevice) (frame_count : ℕ) (buffers : List OutputBuffer)
      → All (HasRoom frame_count) buffers
      → AreProcessed d frame_count buffers (map (process_buffer fmul fdiv d frame_count) buffers)
  unfolding AreProcessed
  process_each d frame_count [] room = tt
  process_each d frame_count (b ∷ bs) room =
      (process_buffer-IsProcessed d frame_count b room.0, process_each d frame_count bs room.1)

  -- A running device that is given some frames, and buffers with room for them, processes every
  -- buffer: each sample is 0 under mute or at a volume of 0 or less, and else its product with the
  -- volume in percent, cut to -1 and 1; so it is in these bounds or a NaN whatever the rounding; and
  -- the memory behind the samples is untouched. Any other call is refused and leaves the buffers as
  -- they are.
  pub process_output_lem :
      (d : VirtualAudioDevice) (buffers : List OutputBuffer) (frame_count : ℕ)
      → All (HasRoom frame_count) buffers
      → let (status, result) =
          virtual_device_process_output fmul fdiv d (some buffers) frame_count in
        ((out : List OutputBuffer) × (d.state ≡ running)
          × (frame_count ≢ 0)
          × (status ≡ no_err)
          × (result ≡ some out)
          × AreProcessed d frame_count buffers out)
        ⊎ ((result ≡ some buffers)
            × (((frame_count ≡ 0) × (status ≡ illegal_operation_error))
                ⊎ ((is_running d.state ≡ false) × (status ≡ not_running_error))))
  unfolding virtual_device_process_output
  process_output_lem d buffers frame_count room = elim (Bool-cases (frame_count == 0)) [
    | inl none_asked ↦ ground arith
    | inr some_asked ↦ elim (running_cases d.state) [
      | inl on ↦ ground (arith, process_each d frame_count buffers room)
      | inr off ↦ ground arith
    ]
  ]
