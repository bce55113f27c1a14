-- ===== src/Http/Types/Laws.antt =====
-- The text forms of http/internal/request.rs and http/internal/response.rs against one another.
use ws_platform.Common.{
  ℕ, ◌+◌, ◌/◌, ◌%◌, Text, ◌≡◌, refl, ◌≢◌, [], ◌∷◌, ◌++◌, lookup, lookup-All, All, sym, ◌∙◌,
  text_key, get_or, text_eq_iff, take, inl, inr, Option-cases,
}
use ws_platform.Http.Types.{
  HttpMethod, method_table, method_of, method_name, HttpStatus, status_code, status_of, status_text,
}

-- Reading the name of a method gives the method.
pub method_of-method_name : (m : HttpMethod) → method_of (method_name m) ≡ m
unfolding method_of
method_of-method_name HttpMethod.unsupported = refl
method_of-method_name _ = refl

-- A text and the method that it names.
abbrev IsName : Text × HttpMethod → Type 0
IsName (k, m) = k ≡ method_name m

method_table-IsName : All IsName method_table
method_table-IsName = assumption (refl, tt)

-- A text that is read as a supported method is that method's name, byte for byte.
pub method_of-eq : (s : Text) → method_of s ≢ HttpMethod.unsupported → s ≡ method_name (method_of s)
unfolding method_of
method_of-eq s h = elim (Option-cases (lookup s method_table)) [
  | inl e ↦ absurd (h (rw e))
  | inr (m, e) ↦
      rw (e, get_or)
        (let (k, same, named) = lookup-All IsName s method_table m method_table-IsName e in
          sym ((text_eq_iff k s).0 same) ∙ named)
]

-- The code of a status, read back, gives the status: the two tables agree on all but `UNDEFINED`.
pub status_of-status_code :
    (s : HttpStatus) → s ≢ HttpStatus.undefined → status_of (status_code s) ≡ s
unfolding status_of
status_of-status_code HttpStatus.undefined h = absurd (h refl)
status_of-status_code _ h = refl

-- The three decimal digits of a number below 1000.
abbrev pub digits3 : ℕ → Text
digits3 n = (48 + n / 100) ∷ (48 + n / 10 % 10) ∷ (48 + n % 10) ∷ []

-- The text of a status begins with its code in three digits and a space, but for `UNDEFINED`.
pub take-status_text :
    (s : HttpStatus)
    → s ≢ HttpStatus.undefined
    → take 4 (status_text s) ≡ digits3 (status_code s) ++ 32 ∷ []
take-status_text HttpStatus.undefined h = absurd (h refl)
take-status_text _ h = refl
