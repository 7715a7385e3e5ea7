-- ===== src/Startup/Checks.antt =====
-- Lists of checks, and what each kind of check asks of a value.
use civic_archive_api.Prelude.{
  ℕ, ◌≤◌, ◌<◌, String, ◌≡◌, refl, ◌↔◌, Bool, true, false, ◌&&◌, List, [], ◌∷◌, ◌++◌, arith, ◌==◌,
  eq_iff, ltb,
}
use civic_archive_api.Prelude.Int.{ℤ, pos, pos_part, ltb_ℤ, leb_ℤ}
use civic_archive_api.Errors.{ok}
use civic_archive_api.Startup.{Check, run_checks}

abbrev pub AllPass : List Check → Type 0
AllPass [] = Unit
AllPass (check ∷ checks) = (check.0 ≡ false) × AllPass checks

infixr 4 ◌▸◌
-- A pair written without parentheses around the second part.
abbrev pub ◌▸◌ : {A B : Type 0} → A → B → A × B
a ▸ b = (a, b)

pub run_checks_iff : (checks : List Check) → (run_checks checks ≡ ok tt) ↔ AllPass checks
unfolding run_checks
run_checks_iff [] = (λ _. tt, λ _. refl)
run_checks_iff ((true, message) ∷ checks) = (λ h. cc, λ h. cc (h.0))
run_checks_iff ((false, message) ∷ checks) =
    (λ h. (refl, (run_checks_iff checks).0 h), λ h. (run_checks_iff checks).1 h.1)

pub AllPass-append_iff : (xs ys : List Check) → AllPass (xs ++ ys) ↔ AllPass xs × AllPass ys
AllPass-append_iff [] ys = (λ h. (tt, h), λ h. h.1)
AllPass-append_iff (x ∷ xs) ys =
    let ih = AllPass-append_iff xs ys in
    (λ h. ((h.0, (ih.0 h.1).0), (ih.0 h.1).1), λ h. (h.0.0, ih.1 (h.0.1, h.1)))

abbrev pub IsPositive : ℤ → Type 0
IsPositive n = 0 < pos_part n

abbrev pub IsNonnegative : ℤ → Type 0
IsNonnegative n = n ≡ pos (pos_part n)

pub IsNonnegative-iff : (n : ℤ) → (ltb_ℤ n (pos 0) ≡ false) ↔ IsNonnegative n
IsNonnegative-iff n = ground arith

pub IsPositive-iff : (n : ℤ) → (leb_ℤ n (pos 0) ≡ false) ↔ IsPositive n
IsPositive-iff n = ground arith

pub guard_iff : (a b : Bool) → ((a && b) ≡ false) ↔ (a ≡ true → b ≡ false)
guard_iff true b = (λ h _. h, λ h. h refl)
guard_iff false b = (λ _ h. cc, λ _. refl)

pub name_guard_iff : (s t : String) (b : Bool) → ((s == t && b) ≡ false) ↔ (s ≡ t → b ≡ false)
name_guard_iff s t b = (
  λ h e. (guard_iff (s == t) b).0 h ((eq_iff s t).1 e),
  λ h. (guard_iff (s == t) b).1 (λ e. h ((eq_iff s t).0 e)),
)

pub length_iff : (m n : ℕ) → (ltb m n ≡ false) ↔ (n ≤ m)
length_iff m n = ground arith
