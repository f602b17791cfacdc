-- ===== src/Changes/Memory.antt =====
-- The memory for the entries that the unpacking of moon_code/sync/src/moon_runtime.c fills.
use moon_in_water.Prelude.{
  ℕ, zero, suc, ◌+◌, ◌-◌, ◌*◌, ◌^◌, ◌%◌, ◌<◌, ◌≤◌, ◌≡◌, ◌≢◌, inl, inr, refl, arith, List, some,
  Option-cases, Bool, true, ℤ, pos, to_int,
}
use moon_in_water.Wire.{Host}
use moon_in_water.Nums.{get_from_moon_num}
use moon_in_water.Changes.{
  Entry, Unpacked, unpacked, refused, overrun, with_entry, write_entry, get_two, get_three,
  undel_loop, unnew_loop, unnew_id_loop, unwrite_id_loop, ids_size, start_ids, unpack_del_data,
  unpack_new_data, unpack_new_data_id, unpack_write_data_id, add64,
}

write_entry-fits :
    (width size i : ℕ) (b : Entry) (u : Unpacked)
    → width ≤ 24
    → 24 * (i + 1) ≤ size
    → u ≢ overrun
    → write_entry width size i b u ≢ overrun
unfolding write_entry with_entry
write_entry-fits width size i b (unpacked num ids rest) w k p = ground arith
write_entry-fits width size i b refused w k p = ground arith
write_entry-fits width size i b overrun w k p = absurd (p refl)

module _ (h : Host) (num : ℤ) (size : ℕ) where
  undel_loop-fits :
      (n i tmp : ℕ) (bytes : List ℕ)
      → 24 * (i + n) ≤ size
      → undel_loop h num size n i tmp bytes ≢ overrun
  unfolding undel_loop
  undel_loop-fits zero i tmp bytes k = λ e. cc
  undel_loop-fits (suc n) i tmp bytes k = elim (Option-cases (get_from_moon_num h bytes)) [
    | inl e ↦ ground arith
    | inr ((d, rest), e) ↦ ground (
      arith,
      write_entry-fits 8 size i (record { id_0 = add64 tmp d; id_1 = 0; id_2 = 0 })
          (undel_loop h num size n (i + 1) (add64 tmp d) rest),
      undel_loop-fits n (i + 1) (add64 tmp d) rest,
    )
  ]

  unnew_loop-fits :
      (n i : ℕ) (bytes : List ℕ) → 24 * (i + n) ≤ size → unnew_loop h num size n i bytes ≢ overrun
  unfolding unnew_loop
  unnew_loop-fits zero i bytes k = λ e. cc
  unnew_loop-fits (suc n) i bytes k = elim (Option-cases (get_two h bytes)) [
    | inl e ↦ ground arith
    | inr ((a, b, rest), e) ↦ ground (
      arith,
      write_entry-fits 16 size i (record { id_0 = a; id_1 = b; id_2 = 0 })
          (unnew_loop h num size n (i + 1) rest),
      unnew_loop-fits n (i + 1) rest,
    )
  ]

  unnew_id_loop-fits :
      (n i tmp : ℕ) (bytes : List ℕ)
      → 24 * (i + n) ≤ size
      → unnew_id_loop h num size n i tmp bytes ≢ overrun
  unfolding unnew_id_loop
  unnew_id_loop-fits zero i tmp bytes k = λ e. cc
  unnew_id_loop-fits (suc n) i tmp bytes k = elim (Option-cases (get_three h bytes)) [
    | inl e ↦ ground arith
    | inr ((a, b, d, rest), e) ↦ ground (
      arith,
      write_entry-fits 24 size i (record { id_0 = a; id_1 = b; id_2 = add64 tmp d })
          (unnew_id_loop h num size n (i + 1) (add64 tmp d) rest),
      unnew_id_loop-fits n (i + 1) (add64 tmp d) rest,
    )
  ]

  unwrite_id_loop-fits :
      (n i tmp : ℕ) (bytes : List ℕ)
      → 24 * (i + n) ≤ size
      → unwrite_id_loop h num size n i tmp bytes ≢ overrun
  unfolding unwrite_id_loop
  unwrite_id_loop-fits zero i tmp bytes k = λ e. cc
  unwrite_id_loop-fits (suc n) i tmp bytes k = elim (Option-cases (get_two h bytes)) [
    | inl e ↦ ground arith
    | inr ((d, c, rest), e) ↦ ground (
      arith,
      write_entry-fits 16 size i
          (record { id_0 = add64 tmp d; id_1 = add64 c (add64 tmp d); id_2 = 0 })
          (unwrite_id_loop h num size n (i + 1) (add64 tmp d) rest),
      unwrite_id_loop-fits n (i + 1) (add64 tmp d) rest,
    )
  ]

-- As many numbers can be read.
abbrev pub HasNums : Host → ℕ → List ℕ → Type 0
HasNums h zero xs = Unit {0}
HasNums h (suc k) xs =
    (d : ℕ) × (ys : List ℕ) × (get_from_moon_num h xs ≡ some (d, ys)) × HasNums h k ys

with_entry-overrun : (width size i : ℕ) (b : Entry) → write_entry width size i b overrun ≡ overrun
unfolding write_entry with_entry
with_entry-overrun width size i b = ground arith

write_entry-overruns :
    (width size i : ℕ) (b : Entry) (u : Unpacked)
    → size < 24 * i + width
    → write_entry width size i b u ≡ overrun
unfolding write_entry
write_entry-overruns width size i b u k = ground arith

undel_loop-overruns :
    (h : Host) (num : ℤ) (size j n i tmp : ℕ) (bytes : List ℕ)
    → j < n
    → size < 24 * (i + j) + 8
    → HasNums h (suc j) bytes
    → undel_loop h num size n i tmp bytes ≡ overrun
unfolding undel_loop
undel_loop-overruns h num size j zero i tmp bytes k l nums = absurd (omega arith)
undel_loop-overruns h num size zero (suc n) i tmp bytes k l (d, ys, e, nums) =
    rw (e, undel_loop)
      (write_entry-overruns 8 size i (record { id_0 = add64 tmp d; id_1 = 0; id_2 = 0 }) _
        (omega arith))
undel_loop-overruns h num size (suc j) (suc n) i tmp bytes k l (d, ys, e, nums) =
    let later =
      undel_loop-overruns h num size j n (i + 1) (add64 tmp d) ys (omega arith) (omega arith)
        nums in
    rw (e, undel_loop)
      (rw later (with_entry-overrun 8 size i (record { id_0 = add64 tmp d; id_1 = 0; id_2 = 0 })))

-- The size of fewer than 2^32 / 24 entries does not wrap.
start_ids-fits :
    (malloc : ℕ → Bool) (loop : ℤ → ℕ → ℕ → List ℕ → Unpacked) (n : ℕ) (rest : List ℕ)
    → 24 * n < 2 ^ 32
    → ((num : ℤ) (size : ℕ) → 24 * n ≤ size → loop num size n rest ≢ overrun)
    → start_ids malloc loop (some (n, rest)) ≢ overrun
unfolding start_ids ids_size to_int
start_ids-fits malloc loop n rest k p =
    let a : n % 2 ^ 32 ≡ n = omega arith in
    let b : 24 * n % 2 ^ 32 ≡ 24 * n = omega arith in
    ground (arith, p (pos n) (24 * n), p (pos n) (24 * n + (2 ^ 64 - 2 ^ 32)))

module _ (malloc : ℕ → Bool) (h : Host) (n : ℕ) (bytes rest : List ℕ) where
  -- If the count in front of the bytes is less than 2^32 / 24, no list of blocks is unpacked past the end of
  -- the memory for it, whatever bytes follow.
  pub unpack-ne-overrun :
      get_from_moon_num h bytes ≡ some (n, rest)
      → 24 * n < 2 ^ 32
      → (unpack_del_data malloc h bytes ≢ overrun)
        × (unpack_new_data malloc h bytes ≢ overrun)
        × (unpack_new_data_id malloc h bytes ≢ overrun)
        × (unpack_write_data_id malloc h bytes ≢ overrun)
  unfolding unpack_del_data unpack_new_data unpack_new_data_id unpack_write_data_id
  unpack-ne-overrun e k = rw e (
    start_ids-fits malloc (λ num size m xs. undel_loop h num size m 0 0 xs) n rest k
        (λ num size l. undel_loop-fits h num size n 0 0 rest (omega arith)),
    start_ids-fits malloc (λ num size m xs. unnew_loop h num size m 0 xs) n rest k
        (λ num size l. unnew_loop-fits h num size n 0 rest (omega arith)),
    start_ids-fits malloc (λ num size m xs. unnew_id_loop h num size m 0 0 xs) n rest k
        (λ num size l. unnew_id_loop-fits h num size n 0 0 rest (omega arith)),
    start_ids-fits malloc (λ num size m xs. unwrite_id_loop h num size m 0 0 xs) n rest k
        (λ num size l. unwrite_id_loop-fits h num size n 0 0 rest (omega arith)),
  )

  -- A count n below 2^31 whose size 24 n, modulo 2^32, ends before the id of the entry j < n: if `malloc`
  -- gives that little memory and j + 1 ids follow, the unpacking of the deleted blocks writes past the end of it.
  pub unpack_del_data-overrun :
      (j : ℕ)
      → get_from_moon_num h bytes ≡ some (n, rest)
      → n < 2 ^ 31
      → j < n
      → 24 * n % 2 ^ 32 < 2 ^ 31
      → 24 * n % 2 ^ 32 < 24 * j + 8
      → malloc (24 * n % 2 ^ 32) ≡ true
      → HasNums h (suc j) rest
      → unpack_del_data malloc h bytes ≡ overrun
  unfolding unpack_del_data start_ids ids_size to_int
  unpack_del_data-overrun j e k inside small short m nums =
      let a : n % 2 ^ 32 ≡ n = omega arith in
      let past =
        undel_loop-overruns h (pos n) (24 * n % 2 ^ 32) j n 0 0 rest inside (omega arith) nums in
      ground arith
