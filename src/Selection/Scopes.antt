-- ===== src/Selection/Scopes.antt =====
-- The texts of a fallback scope.
use inferflux.Prelude.{◌≡◌, refl, true, false, arith}
use inferflux.Prelude.Text.{Text, same}
use inferflux.Selection.Defs.{
  Scope, any_compatible, same_path_only, scope_text, is_scope_value, parse_scope,
}

-- A scope is read back from its text, which is one of the accepted values, whatever the default is.
pub parse_scope-scope_text :
    (s d : Scope) → (parse_scope (scope_text s) d ≡ s) × (is_scope_value (scope_text s) ≡ true)
unfolding parse_scope scope_text is_scope_value same
parse_scope-scope_text any_compatible d = (refl, refl)
parse_scope-scope_text same_path_only d = (refl, refl)

-- A value that is not accepted reads as the default.
pub parse_scope-is_scope_value :
    (value : Text) (d : Scope) → is_scope_value value ≡ false → parse_scope value d ≡ d
unfolding parse_scope is_scope_value
parse_scope-is_scope_value value d e = ground (arith, e)
