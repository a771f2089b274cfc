-- ===== src/MatcherTest/Clock/Dues.antt =====
-- The lists of what is due on the clock of the tests, and the first one of such a list.
use overload_party_matchmaki.Prelude.{
  ◌≤◌, ltb, length, keep, map, All, All-map_imp, Bool, true, false, Bool-cases, Option-cases, List,
  [], ◌∷◌, none, some, ◌≡◌, refl, subst, ◌⊎◌, inl, inr, arith,
}
use overload_party_matchmaki.MatcherTest.Clock.{Due, due_at, first_of}

abbrev pub In : {A : Type 0} → A → List A → Type 0
In x [] = ⊥
In x (y ∷ ys) = (x ≡ y) ⊎ In x ys

pub All-In {κ} : {A : Type 0} {P : A → Type κ} (xs : List A) → ((x : A) → In x xs → P x) → All P xs
All-In [] h = tt
All-In (x ∷ xs) h = (h x (inl refl), All-In xs (λ y m. h y (inr m)))

pub All-map {ℓ κ μ} :
    {A : Type ℓ} {B : Type κ} (P : B → Type μ) (f : A → B) (xs : List A)
    → All (λ x. P (f x)) xs
    → All P (map f xs)
All-map P f [] h = tt
All-map P f (x ∷ xs) h = (h.0, All-map P f xs h.1)

pub All-keep {κ} :
    {A : Type 0} (P : A → Type κ) (p : A → Bool) (xs : List A)
    → ((x : A) → In x xs → p x ≡ true → P x)
    → All P (keep p xs)
All-keep P p [] h = tt
All-keep P p (x ∷ xs) h = elim (Bool-cases (p x)) [
  | inl passes ↦ rw (passes) (h x (inl refl) passes, All-keep P p xs (λ y m. h y (inr m)))
  | inr fails ↦ rw (fails) (All-keep P p xs (λ y m. h y (inr m)))
]

only : (x : Due) (ds : List Due) (d : Due) → first_of ds ≡ none → first_of (x ∷ ds) ≡ some d → x ≡ d
only x ds d last e = grind arith

later :
    (x y : Due) (ds : List Due) (d : Due)
    → first_of ds ≡ some y
    → ltb (due_at y) (due_at x) ≡ true
    → first_of (x ∷ ds) ≡ some d
    → y ≡ d
later x y ds d more before e = grind arith

sooner :
    (x y : Due) (ds : List Due) (d : Due)
    → first_of ds ≡ some y
    → ltb (due_at y) (due_at x) ≡ false
    → first_of (x ∷ ds) ≡ some d
    → x ≡ d
sooner x y ds d more after e = grind arith

pub first_of-All :
    (P : Due → Type 0) (ds : List Due) (d : Due) → All P ds → first_of ds ≡ some d → P d
first_of-All P [] d h e = absurd (cc)
first_of-All P (x ∷ ds) d h e = elim (Option-cases (first_of ds)) [
  | inl last ↦ subst P (only x ds d last e) h.0
  | inr (y, more) ↦ elim (Bool-cases (ltb (due_at y) (due_at x))) [
    | inl before ↦ subst P (later x y ds d more before e) (first_of-All P ds y h.1 more)
    | inr after ↦ subst P (sooner x y ds d more after e) h.0
  ]
]

pub first_of-none : (ds : List Due) → first_of ds ≡ none → ds ≡ []
first_of-none [] e = refl
first_of-none (d ∷ ds) e = absurd (ground arith)

pub none_kept :
    {A : Type 0} (p : A → Bool) (xs : List A) → length (keep p xs) ≡ 0 → All (λ x. p x ≡ false) xs
none_kept p [] h = tt
none_kept p (x ∷ xs) h = elim (Bool-cases (p x)) [
  | inl passes ↦ absurd (ground (arith, passes))
  | inr fails ↦ (fails, none_kept p xs (ground (arith, fails)))
]

least : (x : Due) (ds : List Due) → first_of ds ≡ none → All (λ e. due_at x ≤ due_at e) ds
least x ds last = rw (first_of-none ds last) tt

-- The first one is no later than any other one.
pub first_of_least :
    (ds : List Due) (d : Due) → first_of ds ≡ some d → All (λ e. due_at d ≤ due_at e) ds
first_of_least [] d e = absurd (cc)
first_of_least (x ∷ ds) d e = elim (Option-cases (first_of ds)) [
  | inl last ↦
      subst (λ y. All (λ e. due_at y ≤ due_at e) (x ∷ ds)) (only x ds d last e)
        (omega arith, least x ds last)
  | inr (y, more) ↦ elim (Bool-cases (ltb (due_at y) (due_at x))) [
    | inl before ↦
        subst (λ z. All (λ e. due_at z ≤ due_at e) (x ∷ ds)) (later x y ds d more before e)
          (ground (arith, before), first_of_least ds y more)
    | inr after ↦
        subst (λ z. All (λ e. due_at z ≤ due_at e) (x ∷ ds)) (sooner x y ds d more after e)
          (
            omega arith,
            All-map_imp ds (λ e le. ground (arith, after, le)) (first_of_least ds y more),
          )
  ]
]
