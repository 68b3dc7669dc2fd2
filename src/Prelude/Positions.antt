-- ===== src/Prelude/Positions.antt =====
-- The item at a position of a list that was cut, joined or written in part.
use dfir_investigation_workb.Prelude.Tests.{if◌then◌else◌, ltb}
use dfir_investigation_workb.Prelude.Lists.{
  drop, get_elem?, length, length-append, length-drop, length-take, slice, take,
}
use Prim.Native.Nat.{ℕ, zero, suc, ◌+◌, ◌-◌, ◌≤◌}
use mathlib.Core.Path.{◌≡◌}
use mathlib.Core.List.{List, [], ◌∷◌, ◌++◌}
use mathlib.Core.Option.{none}
use native.Mathlib.Omega.{arith}

module _ {ℓ} {A : Type ℓ} where
  pub get_elem?-append :
      (xs ys : List A) (p : ℕ)
      → get_elem? (xs ++ ys) p
        ≡ (if ltb p (length xs) then get_elem? xs p else get_elem? ys (p - length xs))
  get_elem?-append [] ys p = ground arith
  get_elem?-append (x ∷ xs) ys zero = ground arith
  get_elem?-append (x ∷ xs) ys (suc p) = ground (arith, get_elem?-append xs ys p)

  pub get_elem?-take :
      (n : ℕ) (xs : List A) (p : ℕ)
      → get_elem? (take n xs) p ≡ (if ltb p n then get_elem? xs p else none)
  get_elem?-take zero xs p = ground arith
  get_elem?-take (suc n) [] p = ground arith
  get_elem?-take (suc n) (x ∷ xs) zero = ground arith
  get_elem?-take (suc n) (x ∷ xs) (suc p) = ground (arith, get_elem?-take n xs p)

  pub get_elem?-drop :
      (n : ℕ) (xs : List A) (p : ℕ) → get_elem? (drop n xs) p ≡ get_elem? xs (n + p)
  get_elem?-drop zero xs p = ground arith
  get_elem?-drop (suc n) [] p = ground arith
  get_elem?-drop (suc n) (x ∷ xs) p = ground (arith, get_elem?-drop n xs p)

  pub get_elem?-slice :
      (start stop : ℕ) (xs : List A) (p : ℕ)
      → get_elem? (slice start stop xs) p
        ≡ (if ltb p (stop - start) then get_elem? xs (start + p) else none)
  unfolding slice
  get_elem?-slice start stop xs p =
      ground (arith, get_elem?-take (stop - start) (drop start xs) p, get_elem?-drop start xs p)

  -- `xs[start:stop] = ys`
  unfoldable pub splice : ℕ → ℕ → List A → List A → List A
  splice start stop ys xs = take start xs ++ (ys ++ drop stop xs)

  pub length-splice :
      (start stop : ℕ) (ys xs : List A)
      → start ≤ stop
      → stop ≤ length xs
      → start + length ys ≡ stop
      → length (splice start stop ys xs) ≡ length xs
  unfolding splice
  length-splice start stop ys xs h1 h2 h3 = omega (
    arith,
    length-append (take start xs) (ys ++ drop stop xs),
    length-append ys (drop stop xs),
    length-take start xs,
    length-drop stop xs,
  )

module _ {A : Type 0} where
  pub get_elem?-splice :
      (start stop : ℕ) (ys xs : List A) (p : ℕ)
      → start ≤ stop
      → stop ≤ length xs
      → start + length ys ≡ stop
      → get_elem? (splice start stop ys xs) p ≡ (
          if ltb p start
          then get_elem? xs p
          else if ltb p stop
          then get_elem? ys (p - start)
          else get_elem? xs p)
  unfolding splice
  get_elem?-splice start stop ys xs p h1 h2 h3 = ground (
    arith,
    get_elem?-append (take start xs) (ys ++ drop stop xs) p,
    length-take start xs,
    get_elem?-take start xs p,
    get_elem?-append ys (drop stop xs) (p - start),
    get_elem?-drop stop xs (p - start - length ys),
  )
