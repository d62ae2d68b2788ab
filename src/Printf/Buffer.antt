-- ===== src/Printf/Buffer.antt =====
-- What `vsnprintf` leaves in its buffer, by what `vprintf` prints.
use mathlib.Core.Path.{subst}
use mathlib.Core.List.{append-nil}
use au_os.Prelude.{
  take-empty, drop-empty, take-all, drop-all, ℕ, zero, suc, ◌+◌, ◌-◌, ◌≤◌, ◌<◌, ◌≡◌, ◌^◌, leb, true,
  refl, ap, sym, ◌∙◌, inl, inr, false, some, List, [], ◌∷◌, ◌++◌, arith, ltb, ◌==◌, if◌then◌else◌,
  Bool-cases, length, set, take, drop, length-append, length-take,
}
use au_os.Prelude.Words.{u32}
use au_os.Printf.{
  Outcome, printed, failed, strayed, Piece, prints, invalid, strays, Arg, print_piece, piece,
  decode_format, start_of, vprintf_loop, vprintf_with, serial_out, vprintf, store_at, str_out,
  terminate, vsnprintf,
}

take-append : (n : ℕ) (xs ys : List ℕ) → take n (xs ++ ys) ≡ take n xs ++ take (n - length xs) ys
take-append n [] ys =
    let e = take-empty {A = ℕ} n in let m : n - 0 ≡ n = omega arith in rw (e, m) refl
take-append zero (x ∷ xs) ys = let m : 0 - suc (length xs) ≡ 0 = omega arith in rw m refl
take-append (suc n) (x ∷ xs) ys =
    let m : suc n - suc (length xs) ≡ n - length xs = omega arith in
    rw m (ap (λ zs. x ∷ zs) (take-append n xs ys))

drop-append : (n : ℕ) (xs ys : List ℕ) → drop (length xs + n) (xs ++ ys) ≡ drop n ys
drop-append n [] ys = let m : 0 + n ≡ n = omega arith in rw m refl
drop-append n (x ∷ xs) ys =
    let m : suc (length xs) + n ≡ suc (length xs + n) = omega arith in rw m (drop-append n xs ys)

drop-drop : (n m : ℕ) (xs : List ℕ) → drop m (drop n xs) ≡ drop (n + m) xs
drop-drop zero m xs = let e : 0 + m ≡ m = omega arith in rw e refl
drop-drop (suc n) m [] = drop-empty m ∙ sym (drop-empty (suc n + m))
drop-drop (suc n) m (x ∷ xs) =
    let e : suc n + m ≡ suc (n + m) = omega arith in rw e (drop-drop n m xs)

-- A buffer with as much of the text at its start as there is room for.
abbrev pub filled : (dst text : List ℕ) → List ℕ
filled dst text = take (length dst) text ++ drop (length text) dst

-- Storing behind a text.
store_at-append :
    (t rest p : List ℕ) → store_at (t ++ rest) (length t) p ≡ t ++ p ++ drop (length p) rest
unfolding store_at
store_at-append t rest p =
    let e : take (length t) (t ++ rest) ≡ t = take-append (length t) t rest ∙ whole in
    let e' = drop-append (length p) t rest in rw (e, e') refl
  where
    whole : take (length t) t ++ take (length t - length t) rest ≡ t
    whole =
        let a = take-all (length t) t (omega arith) in
        let m : length t - length t ≡ 0 = omega arith in rw (a, m) (append-nil t)

-- The two cases of how much is copied.
fill_room :
    (dst text buf : List ℕ)
    → length text ≤ length dst
    → let n = length dst - length text in
      let copied = take (if ltb (length buf) n then length buf else n) buf in
      text ++ copied ++ drop (length copied) (drop (length text) dst) ≡ filled dst (text ++ buf)
fill_room dst text buf fits =
    let n = length dst - length text in
    let a = take-append (length dst) text buf in
    let whole = take-all (length dst) text fits in
    let l = length-append text buf in
    elim (Bool-cases (ltb (length buf) n)) [
      | inl short ↦
          let c = take-all (length buf) buf (omega arith) in
          let c' = take-all n buf (ground arith) in
          let d = drop-drop (length text) (length buf) dst in rw (short, c, d, a, whole, c', l) refl
      | inr long ↦
          let k : length (take n buf) ≡ n = ground (arith, length-take n buf) in
          let d = drop-drop (length text) n dst in
          let m = drop-all (length text + n) dst (omega arith) in
          let m' = drop-all (length text + length buf) dst (ground arith) in
          rw (long, k, d, a, whole, l, m, m') refl
    ]

-- `str_out` fills the buffer.
str_out-filled :
    (dst text buf : List ℕ)
    → length dst < 2 ^ 31
    → str_out (length dst) (filled dst text) (length text) buf ≡ some (filled dst (text ++ buf))
unfolding str_out
str_out-filled dst text buf fit =
    let positive : leb (2 ^ 31) (length dst) ≡ false = ground arith in
    elim (Bool-cases (ltb (length dst) (length text))) [
      | inl over ↦
          let a = take-append (length dst) text buf in
          let m : length dst - length text ≡ 0 = ground arith in
          let d = drop-all (length text) dst (ground arith) in
          let d' = drop-all (length (text ++ buf)) dst (ground (arith, length-append text buf)) in
          rw (positive, over, a, m, d, d')
            (ap some (ap (λ zs. zs ++ []) (sym (append-nil (take (length dst) text)))))
      | inr room ↦
          let fits : length text ≤ length dst = ground arith in
          let whole = take-all (length dst) text fits in
          let s = store_at-append text (drop (length text) dst) (
            take
              (if ltb (length buf) (length dst - length text)
                then length buf
                else length dst - length text)
              buf) in
          rw (positive, room, whole, s) (ap some (fill_room dst text buf fits))
    ]

-- Two outcomes with the same count, the first with the text that the second puts in a buffer.
abbrev pub IsFilled : (dst : List ℕ) → Outcome (List ℕ) → Outcome (List ℕ) → Type 0
IsFilled dst (printed t n) o = (n ≡ length t) × (o ≡ printed (filled dst t) n)
IsFilled dst (failed t) o = o ≡ failed (filled dst t)
IsFilled dst strayed o = o ≡ strayed

module _ (dst : List ℕ) (fit : length dst < 2 ^ 31) where
  -- A round, by what comes after it.
  print_piece-IsFilled :
      (k k' : List ℕ → ℕ → List Arg → Outcome (List ℕ)) (t : List ℕ) (p : Piece)
      → ((t : List ℕ) (args : List Arg)
          → IsFilled dst (k t (length t) args) (k' (filled dst t) (length t) args))
      → IsFilled dst
          (print_piece serial_out k t (length t) p)
          (print_piece (str_out (length dst)) k' (filled dst t) (length t) p)
  unfolding print_piece serial_out
  print_piece-IsFilled k k' t invalid h = refl
  print_piece-IsFilled k k' t strays h = refl
  print_piece-IsFilled k k' t (prints buf args) h =
      elim (Bool-cases (ltb (length t + length buf) (2 ^ 31))) [
        | inl fits ↦
            let e = str_out-filled dst t buf fit in
            let l = length-append t buf in rw (fits, e, ← l) (h (t ++ buf) args)
        | inr over ↦ rw over refl
      ]

  vprintf_loop-IsFilled :
      (fuel : ℕ) (t fmt : List ℕ) (args : List Arg)
      → IsFilled dst
          (vprintf_loop fuel serial_out t (length t) fmt args)
          (vprintf_loop fuel (str_out (length dst)) (filled dst t) (length t) fmt args)
  unfolding vprintf_loop
  vprintf_loop-IsFilled zero t fmt args = (refl, refl)
  vprintf_loop-IsFilled (suc fuel) t [] args = (refl, refl)
  vprintf_loop-IsFilled (suc fuel) t (c ∷ cs) args =
      let f = decode_format (c ∷ cs) in
      print_piece-IsFilled
        (λ s' written' args'. vprintf_loop fuel serial_out s' written' f.rest args')
        (λ s' written' args'. vprintf_loop fuel (str_out (length dst)) s' written' f.rest args') t
        (piece f.type_of f.spec (start_of (c ∷ cs) f.rest) args)
        (λ t' args'. vprintf_loop-IsFilled fuel t' f.rest args')

terminate_lem :
    (size n : ℕ) (dst : List ℕ)
    → 0 < n
    → 0 < size
    → size < 2 ^ 31
    → terminate size (printed dst n) ≡ printed (set dst ((if ltb n size then n else size) - 1) 0) n
unfolding terminate
terminate_lem size n dst pos room fit =
    let positive : ltb size (2 ^ 31) ≡ true = ground arith in
    let positive' : leb (2 ^ 31) size ≡ false = ground arith in
    let e : (n == 0) ≡ false = ground arith in
    let e' : (size == 0) ≡ false = ground arith in
    elim (Bool-cases (ltb n size)) [
      | inl short ↦ rw (positive, short, e) refl
      | inr long ↦ rw (positive, positive', long, e') refl
    ]

filled-empty : (dst : List ℕ) → filled dst [] ≡ dst
filled-empty dst = rw (take-empty {A = ℕ} (length dst)) refl

with_buffer :
    (dst fmt : List ℕ) (args : List Arg)
    → length dst < 2 ^ 31
    → IsFilled dst (vprintf [] fmt args) (vprintf_with (str_out (length dst)) dst fmt args)
unfolding vprintf vprintf_with
with_buffer dst fmt args fit =
    subst
      (λ b.
        IsFilled dst (vprintf [] fmt args)
          (vprintf_loop (length fmt) (str_out (length dst)) b 0 fmt args))
      (filled-empty dst) (vprintf_loop-IsFilled dst fit (length fmt) [] fmt args)

-- Where `vprintf` prints a text that is not empty, and the buffer is not empty and has less than
-- 2 ^ 31 bytes, `vsnprintf` gives the same count, and leaves the text in the buffer as far as there
-- is room, what was there behind it, and a 0 over the last byte of the text or of the buffer,
-- whichever comes first.
pub vsnprintf-vprintf :
    (dst fmt t : List ℕ) (args : List Arg) (n : ℕ)
    → vprintf [] fmt args ≡ printed t n
    → 0 < n
    → 0 < length dst
    → length dst < 2 ^ 31
    → (n ≡ length t)
      × (vsnprintf dst fmt args
          ≡ printed (set (filled dst t) ((if ltb n (length dst) then n else length dst) - 1) 0) n)
unfolding vsnprintf
vsnprintf-vprintf dst fmt t args n e pos room fit =
    let as_int : u32 (length dst) ≡ length dst = omega arith in
    let (count, q) =
      subst (λ o. IsFilled dst o (vprintf_with (str_out (length dst)) dst fmt args)) e
        (with_buffer dst fmt args fit) in
    rw as_int (
      count,
      ap (terminate (length dst)) q ∙ terminate_lem (length dst) n (filled dst t) pos room fit,
    )
