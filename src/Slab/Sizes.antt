-- ===== src/Slab/Sizes.antt =====
-- The layout of a pool: powers of two, alignment, and that objects and header fit.
use native.Mathlib.Nat.{one-le-pow, pow-suc, div-add-mod, mod-lt, mul-mod_right, mul_comm}
use au_os.Prelude.{
  ℕ, zero, suc, ◌+◌, ◌-◌, ◌*◌, ◌/◌, ◌%◌, ◌^◌, ◌≤◌, ◌<◌, ◌≡◌, refl, ◌⊎◌, inl, inr, arith, ltb,
  Bool-cases, ltb→lt,
}
use au_os.PageAlloc.Blocks.{two_pow_add}
use au_os.Slab.{
  ilog2_loop, ilog2, ceil, floor, align_up, align_down, meta_size, fit_objs, layout_setup,
  page_shift, objs_per_word, min_pool_objs,
}

-- `align_up` gives the least multiple of the alignment that is no smaller, and `align_down` the
-- largest that is no larger.
pub align_lem :
    (size align : ℕ)
    → 0 < align
    → (align_up size align % align ≡ 0)
      × (size ≤ align_up size align)
      × (align_up size align < size + align)
      × (align_down size align % align ≡ 0)
      × (align_down size align ≤ size)
      × (size < align_down size align + align)
unfolding align_up ceil align_down floor
align_lem size align pos = omega (
  arith,
  div-add-mod (size + align - 1) align,
  mod-lt (size + align - 1) {m = align} pos,
  div-add-mod size align,
  mod-lt size {m = align} pos,
  mul-mod_right align ((size + align - 1) / align),
  mul-mod_right align (size / align),
)

ilog2_loop_lem :
    (fuel x power : ℕ)
    → x ≤ 2 ^ (power + fuel)
    → (power ≡ 0) ⊎ (2 ^ power < 2 * x)
    → (x ≤ 2 ^ ilog2_loop fuel x (2 ^ power) power)
      × ((ilog2_loop fuel x (2 ^ power) power ≡ 0)
          ⊎ (2 ^ ilog2_loop fuel x (2 ^ power) power < 2 * x))
unfolding ilog2_loop
ilog2_loop_lem zero x power le small =
    let e : power + 0 ≡ power = omega arith in (rw e at le, small)
ilog2_loop_lem (suc fuel) x power le small = elim (Bool-cases (ltb (2 ^ power) x)) [
  | inl on ↦
      let e : 2 * 2 ^ power ≡ 2 ^ suc power = omega (arith, pow-suc 2 power) in
      let e' : power + 1 ≡ suc power = omega arith in
      let e'' : power + suc fuel ≡ suc power + fuel = omega arith in
      rw on (
        rw (e, e')
          (ilog2_loop_lem fuel x (suc power) (rw e'' at le)
            (inr (ground (arith, pow-suc 2 power)))))
  | inr off ↦ rw off (ground arith, small)
]

-- Up to 2 ^ 64, `ilog2` is the least power of two that is no smaller: the loop ends by its test
-- within 64 rounds.
pub ilog2_lem : (x : ℕ) → x ≤ 2 ^ 64 → (x ≤ 2 ^ ilog2 x) × ((ilog2 x ≡ 0) ⊎ (2 ^ ilog2 x < 2 * x))
unfolding ilog2
ilog2_lem x le = ilog2_loop_lem 64 x 0 le (inl refl)

-- What fits, and no more would.
fit_objs_lem :
    (obj_size pool_size objs : ℕ)
    → meta_size 0 ≤ pool_size
    → let n = fit_objs obj_size pool_size objs in
      (obj_size * n + meta_size n ≤ pool_size)
      × (n ≤ objs)
      × ((n ≡ objs) ⊎ (pool_size < obj_size * suc n + meta_size (suc n)))
unfolding fit_objs
fit_objs_lem obj_size pool_size zero le = (omega arith, omega arith, inl refl)
fit_objs_lem obj_size pool_size (suc objs) le =
    elim (Bool-cases (ltb pool_size (obj_size * suc objs + meta_size (suc objs)))) [
      | inl big ↦
          let (fits, le', more) = fit_objs_lem obj_size pool_size objs le in
          rw big
            (fits, omega arith, elim more [ inl e ↦ inr (rw e (ltb→lt _ _ big)) | inr m ↦ inr m ])
      | inr fits ↦ rw fits (ground arith, omega arith, inl refl)
    ]

meta_size_small : (meta_size 0 ≡ 48) × (meta_size 1 ≡ 48) × (meta_size 2 ≡ 48) × (meta_size 8 ≡ 48)
unfolding meta_size
meta_size_small = (refl, refl, refl, refl)

-- A pool has room for two objects.
module _ (obj min order : ℕ) (min_eq : min ≡ obj * 8 + meta_size 8)
    (enough : min / 2 ^ page_shift ≤ 2 ^ order) where
  two_fit : 2 * obj + 48 ≤ 2 ^ (order + page_shift)
  unfolding meta_size
  two_fit = omega (arith, two_pow_add order page_shift, one-le-pow order 2)

-- The layout of a cache of objects of a positive size and alignment, whose eight objects do not
-- fill the address space: the objects are aligned and as large as asked for, there are at least
-- two, the objects and the header fit in the pool without overlapping, one more object would not
-- fit, and the bitmap has just the words needed for a bit for each.
pub layout_setup_lem :
    (size align : ℕ)
    → 0 < size
    → 0 < align
    → (size + align) * 8 < 2 ^ 63
    → let l = layout_setup size align in
      let pool_size = 2 ^ (l.pool_order + page_shift) in
      (l.obj_size % align ≡ 0)
      × (size ≤ l.obj_size)
      × (1 < l.obj_count)
      × (l.obj_count * l.obj_size ≤ l.meta_offs)
      × (l.meta_offs + meta_size l.obj_count ≡ pool_size)
      × (pool_size < l.obj_size * suc l.obj_count + meta_size (suc l.obj_count))
      × (l.mask_words ≡ ceil l.obj_count objs_per_word)
unfolding layout_setup
layout_setup_lem size align size_pos align_pos bound =
    let obj = align_up size align in
    let (mult, ge, less, _, _, _) = align_lem size align align_pos in
    let min = obj * min_pool_objs + meta_size min_pool_objs in
    let order = ilog2 (min / 2 ^ page_shift) in
    let pool_size = 2 ^ (order + page_shift) in
    let (holds, _) = ilog2_lem (min / 2 ^ page_shift) (omega (arith, meta_size_small)) in
    let room : 2 * obj + 48 ≤ pool_size = two_fit obj min order refl holds in
    let n = fit_objs obj pool_size (pool_size / obj) in
    let (fits, _, more) =
      fit_objs_lem obj pool_size (pool_size / obj) (omega (arith, meta_size_small)) in
    let beyond : pool_size < obj * suc (pool_size / obj) =
      omega (arith, div-add-mod pool_size obj, mod-lt pool_size {m = obj} (omega arith)) in
    let max : pool_size < obj * suc n + meta_size (suc n) = elim more [
      | inl e ↦ rw e (omega arith)
      | inr m ↦ m
    ] in
    (
      mult,
      ge,
      more_than_one obj pool_size n max room,
      omega (arith, mul_comm n obj),
      omega arith,
      max,
      refl,
    )
  where
    more_than_one :
        (obj pool_size n : ℕ)
        → pool_size < obj * suc n + meta_size (suc n)
        → 2 * obj + 48 ≤ pool_size
        → 1 < n
    more_than_one obj pool_size zero max room = absurd (omega (arith, meta_size_small))
    more_than_one obj pool_size (suc zero) max room = absurd (omega (arith, meta_size_small))
    more_than_one obj pool_size (suc (suc n)) max room = omega arith
