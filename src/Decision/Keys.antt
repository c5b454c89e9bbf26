-- ===== src/Decision/Keys.antt =====
-- The key of a scope in packages/core/src/engine.ts: #activeRelationshipScope joins the revision, the time
-- and the pinned version with NUL characters. The digits of a revision hold none, so what follows them is
-- compared as one text.
use Prim.Native.Char.{nul}
use Prim.Native.String.{[], ◌∷◌, ◌++◌}
use text.Mathlib.TextLemmas.{nil-append, cons-append, head-eq_of_cons-eq, tail-eq_of_cons-eq}
use access_kit.Prelude.{String, ◌≡◌, ◌≢◌, refl, sym, ap, subst, ◌∙◌}
use access_kit.Domain.{IsoDateTime}

-- The key after its revision.
abbrev pub scope_text : IsoDateTime → String → String
scope_text as_of version = as_of ++ (nul ∷ version)

-- No NUL is in the text.
unfoldable pub IsPlain : String → Type 0
IsPlain [] = Unit
IsPlain (c ∷ s) = (c ≢ nul) × IsPlain s

joined-not-IsPlain : (c d : String) → IsPlain (c ++ (nul ∷ d)) → ⊥
unfolding IsPlain
joined-not-IsPlain [] d h = (subst IsPlain (nil-append (nul ∷ d)) h).0 refl
joined-not-IsPlain (x ∷ c) d h =
    joined-not-IsPlain c d (subst IsPlain (cons-append x c (nul ∷ d)) h).1

-- A key of plain parts has no other parts.
pub scope_text-parts :
    (a b c d : String) → IsPlain a → IsPlain b → scope_text a b ≡ scope_text c d → (a ≡ c) × (b ≡ d)
unfolding IsPlain
scope_text-parts [] b [] d p q h =
    (refl, tail-eq_of_cons-eq (sym (nil-append (nul ∷ b)) ∙ h ∙ nil-append (nul ∷ d)))
scope_text-parts [] b (y ∷ c) d p q h = absurd (
    joined-not-IsPlain c d (
      subst IsPlain
        (tail-eq_of_cons-eq (sym (nil-append (nul ∷ b)) ∙ h ∙ cons-append y c (nul ∷ d))) q))
scope_text-parts (x ∷ a) b [] d p q h =
    absurd (p.0 (head-eq_of_cons-eq (sym (cons-append x a (nul ∷ b)) ∙ h ∙ nil-append (nul ∷ d))))
scope_text-parts (x ∷ a) b (y ∷ c) d p q h =
    let e = sym (cons-append x a (nul ∷ b)) ∙ h ∙ cons-append y c (nul ∷ d) in
    let (first, second) = scope_text-parts a b c d p.1 q (tail-eq_of_cons-eq e) in
    (ap (λ k. k ∷ a) (head-eq_of_cons-eq e) ∙ ap (λ s. y ∷ s) first, second)
