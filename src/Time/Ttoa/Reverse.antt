-- ===== src/Time/Ttoa/Reverse.antt =====
-- strreverse of hawkc/common.c swaps in place, from both ends inwards; the result is the reverse.
use hawkc.Base.{
  ℕ, zero, suc, ◌+◌, ◌-◌, ◌≤◌, ◌<◌, [], ◌∷◌, ◌++◌, Bytes, length, get_or, set, reverse, append-nil,
  append_assoc, reverse-append, length-append, lt→ltb, le→ltb, ◌≡◌, refl, sym, ap, ◌∙◌, arith,
}
use mathlib.Core.List.{reverse-cons}
use mathlib.Core.Path.{subst}
use hawkc.Time.Ttoa.{strreverse_loop, strreverse}

get_or-length : (pre : Bytes) (x : ℕ) (post : Bytes) → get_or (pre ++ x ∷ post) (length pre) 0 ≡ x
get_or-length [] x post = refl
get_or-length (y ∷ pre) x post = get_or-length pre x post

set-length :
    (pre : Bytes) (x : ℕ) (post : Bytes) (v : ℕ)
    → set (pre ++ x ∷ post) (length pre) v ≡ pre ++ v ∷ post
set-length [] x post v = refl
set-length (y ∷ pre) x post v = ap (◌∷◌ y) (set-length pre x post v)

snoc_view : (x : ℕ) (xs : Bytes) → (m : Bytes) × (y : ℕ) × (x ∷ xs ≡ m ++ y ∷ [])
snoc_view x [] = ([], x, refl)
snoc_view x (z ∷ xs) = let (m, y, e) = snoc_view z xs in (x ∷ m, y, ap (◌∷◌ x) e)

-- One round swaps the two ends of what lies between the positions.
swap_ends :
    (fuel : ℕ) (pre m post : Bytes) (x y : ℕ)
    → strreverse_loop
        (suc fuel)
        (pre ++ (x ∷ (m ++ (y ∷ post))))
        (length pre)
        (length (pre ++ x ∷ m))
      ≡ strreverse_loop fuel
          (pre ++ (y ∷ (m ++ (x ∷ post))))
          (length pre + 1)
          (length (pre ++ x ∷ m) - 1)
swap_ends fuel pre m post x y =
    let regroup : (v : ℕ) (w : ℕ) → pre ++ (v ∷ (m ++ (w ∷ post))) ≡ (pre ++ v ∷ m) ++ w ∷ post =
      λ v w. sym (append_assoc pre (v ∷ m) (w ∷ post)) in
    let more : length pre < length (pre ++ x ∷ m) = omega (arith, length-append pre (x ∷ m)) in
    let first : get_or (pre ++ (x ∷ (m ++ (y ∷ post)))) (length pre) 0 ≡ x =
      get_or-length pre x _ in
    let last : get_or (pre ++ (x ∷ (m ++ (y ∷ post)))) (length (pre ++ x ∷ m)) 0 ≡ y =
      rw regroup (get_or-length (pre ++ x ∷ m) y post) in
    let store : set (pre ++ (x ∷ (m ++ (y ∷ post)))) (length (pre ++ x ∷ m)) x
        ≡ pre ++ (x ∷ (m ++ (x ∷ post))) =
      rw (regroup x y) (set-length (pre ++ x ∷ m) y post x ∙ sym (regroup x x)) in
    unfold strreverse_loop in
    rw (lt→ltb _ _ more, first, last, store, set-length pre x (m ++ (x ∷ post)) y)

reverse_ends : (x y : ℕ) (m : Bytes) → reverse (x ∷ (m ++ y ∷ [])) ≡ y ∷ (reverse m ++ x ∷ [])
reverse_ends x y m =
    reverse-cons x (m ++ y ∷ []) ∙ ap (λ t. t ++ x ∷ []) (reverse-append m (y ∷ []))

ends-reverse :
    (fuel : ℕ) (pre m post : Bytes) (x y b e : ℕ)
    → b ≡ length pre
    → e ≡ length (pre ++ x ∷ m)
    → strreverse_loop fuel
        ((pre ++ y ∷ []) ++ (m ++ (x ∷ post)))
        (length pre + 1)
        (length (pre ++ x ∷ m) - 1)
      ≡ (pre ++ y ∷ []) ++ (reverse m ++ (x ∷ post))
    → strreverse_loop (suc fuel) (pre ++ ((x ∷ (m ++ y ∷ [])) ++ post)) b e
      ≡ pre ++ (reverse (x ∷ (m ++ y ∷ [])) ++ post)
ends-reverse fuel pre m post x y b e p q ih =
    rw
      (
        p,
        q,
        append_assoc m (y ∷ []) post,
        reverse_ends x y m,
        append_assoc (reverse m) (x ∷ []) post,
      )
      (swap_ends fuel pre m post x y
        ∙ (rw
            (
              append_assoc pre (y ∷ []) (m ++ (x ∷ post)),
              append_assoc pre (y ∷ []) (reverse m ++ (x ∷ post)),
            )
            at ih))

strreverse_loop-reverse :
    (fuel : ℕ) (pre mid post : Bytes) (b e : ℕ)
    → length mid ≤ fuel
    → b ≡ length pre
    → e ≡ length pre + length mid - 1
    → strreverse_loop fuel (pre ++ (mid ++ post)) b e ≡ pre ++ (reverse mid ++ post)
strreverse_loop-reverse zero pre [] post b e h p q = unfold strreverse_loop in refl
strreverse_loop-reverse zero pre (x ∷ xs) post b e h p q = absurd (omega arith)
strreverse_loop-reverse (suc fuel) pre [] post b e h p q =
    unfold strreverse_loop in rw (le→ltb e b (omega arith))
strreverse_loop-reverse (suc fuel) pre (x ∷ []) post b e h p q =
    unfold strreverse_loop in rw (le→ltb e b (omega arith))
strreverse_loop-reverse (suc fuel) pre (x ∷ z ∷ xs) post b e h p q =
    let (m, y, split) = snoc_view z xs in
    let size : length (z ∷ xs) ≡ length m + 1 = ap length split ∙ length-append m (y ∷ []) in
    let e_is : e ≡ length (pre ++ x ∷ m) = omega (arith, length-append pre (x ∷ m)) in
    let inner =
      strreverse_loop-reverse fuel (pre ++ y ∷ []) m (x ∷ post) (length pre + 1)
        (length (pre ++ x ∷ m) - 1) (omega arith) (omega (arith, length-append pre (y ∷ [])))
        (omega (arith, length-append pre (x ∷ m), length-append pre (y ∷ []))) in
    subst
      (λ t.
        strreverse_loop (suc fuel) (pre ++ ((x ∷ t) ++ post)) b e
        ≡ pre ++ (reverse (x ∷ t) ++ post))
      (sym split) (ends-reverse fuel pre m post x y b e p e_is inner)

-- Called with a buffer's first and last character, strreverse turns the buffer into the reverse of
-- the list of its characters.
pub strreverse-reverse : (buf : Bytes) → strreverse buf 0 (length buf - 1) ≡ reverse buf
unfolding strreverse
strreverse-reverse buf =
    let plain = strreverse_loop-reverse (length buf) [] buf [] 0 (length buf - 1) in
    rw (append-nil buf, append-nil (reverse buf)) at (plain (omega arith) refl (omega arith))
