-- ===== src/FileManager/Resolved.antt =====
-- What the resolution of a path answers.
use a_hand.Base.{
  ◌≡◌, refl, sym, subst, Option, none, some, List, [], ◌∷◌, ◌++◌, append_nil, append_assoc, reverse,
  reverse_twice, ◌∙◌,
}
use a_hand.FileManager.Paths.{
  Component, cur_dir, parent_dir, normal, PathBuf, Canonical, found, missing, failed, push_all,
  climb, canonicalize_or_parent,
}

abbrev pub ancestor : PathBuf → List Component → PathBuf
ancestor p parts = record { is_absolute = p.is_absolute; components = parts }

-- The deepest ancestor that is there, resolved, with everything below it put back as it was.
pub record IsResolved (canonicalize : PathBuf → Canonical) (p q : PathBuf) : Type 0 where
  pub upper : List Component
  pub lower : List Component
  pub canonical : PathBuf
  pub is_split : p.components ≡ upper ++ lower
  pub is_found : canonicalize (ancestor p upper) ≡ found canonical
  pub is_joined : q ≡ push_all canonical lower
  -- Every longer piece of the path is missing.
  pub is_deepest :
      (c : Component) (cs rest : List Component)
      → lower ≡ (c ∷ cs) ++ rest
      → canonicalize (ancestor p (upper ++ (c ∷ cs))) ≡ missing

module _ (canonicalize : PathBuf → Canonical) (p : PathBuf) where
  climb-IsResolved :
      (up suffix : List Component) (q : PathBuf)
      → p.components ≡ reverse up ++ suffix
      → ((cs rest : List Component)
          → suffix ≡ cs ++ rest
          → canonicalize (ancestor p (reverse up ++ cs)) ≡ missing)
      → climb canonicalize p.is_absolute up suffix ≡ some q
      → IsResolved canonicalize p q
  unfolding climb
  climb-IsResolved [] suffix q e m h = cc
  climb-IsResolved (cur_dir ∷ up) suffix q e m h = cc
  climb-IsResolved (parent_dir ∷ up) suffix q e m h = cc
  climb-IsResolved (normal name ∷ up) suffix q e m h =
      go (canonicalize (ancestor p (reverse up))) refl
        (climb-IsResolved up (normal name ∷ suffix) q
          (e ∙ append_assoc (reverse up) (normal name ∷ []) suffix))
        h
    where
      below :
          (c : Component) (cs rest : List Component)
          → normal name ∷ suffix ≡ (c ∷ cs) ++ rest
          → canonicalize (ancestor p (reverse up ++ (c ∷ cs))) ≡ missing
      below c cs rest split =
          subst (λ d. canonicalize (ancestor p (reverse up ++ (d ∷ cs))) ≡ missing) (cc)
            (subst (λ parts. canonicalize (ancestor p parts) ≡ missing)
              (append_assoc (reverse up) (normal name ∷ []) cs) (m cs rest (cc)))

      missing_from :
          canonicalize (ancestor p (reverse up)) ≡ missing
          → (cs rest : List Component) → normal name ∷ suffix ≡ cs ++ rest
          → canonicalize (ancestor p (reverse up ++ cs)) ≡ missing
      missing_from a [] rest split = rw (append_nil (reverse up)) a
      missing_from a (c ∷ cs) rest split = below c cs rest split

      go :
          (answer : Canonical)
          → canonicalize (ancestor p (reverse up)) ≡ answer
          → (((cs rest : List Component)
                → normal name ∷ suffix ≡ cs ++ rest
                → canonicalize (ancestor p (reverse up ++ cs)) ≡ missing)
              → climb canonicalize p.is_absolute up (normal name ∷ suffix) ≡ some q
              → IsResolved canonicalize p q)
          → elim answer as (λ _. Option PathBuf) [
            | found canonical ↦ some (push_all canonical (normal name ∷ suffix))
            | missing ↦ climb canonicalize p.is_absolute up (normal name ∷ suffix)
            | failed ↦ none
          ]
            ≡ some q
          → IsResolved canonicalize p q
      go (found canonical) a resolved_above h = record {
        upper = reverse up;
        lower = normal name ∷ suffix;
        canonical = canonical;
        is_split = e ∙ append_assoc (reverse up) (normal name ∷ []) suffix;
        is_found = a;
        is_joined = cc;
        is_deepest = λ c cs rest split. below c cs rest split;
      }
      go missing a resolved_above h = resolved_above (missing_from a) h
      go failed a resolved_above h = cc

-- A path is resolved by its deepest ancestor that the operating system can resolve: what is below
-- it is put back as it was, and every longer piece of the path is missing.
pub canonicalize_or_parent-IsResolved :
    (canonicalize : PathBuf → Canonical) (p q : PathBuf)
    → canonicalize_or_parent canonicalize p ≡ some q
    → IsResolved canonicalize p q
unfolding canonicalize_or_parent
canonicalize_or_parent-IsResolved canonicalize p q h = go (canonicalize p) refl h
  where
    go :
        (answer : Canonical)
        → canonicalize p ≡ answer
        → elim answer as (λ _. Option PathBuf) [
          | found canonical ↦ some canonical
          | missing ↦ climb canonicalize p.is_absolute (reverse p.components) []
          | failed ↦ none
        ]
          ≡ some q
        → IsResolved canonicalize p q
    go (found canonical) a h = record {
      upper = p.components;
      lower = [];
      canonical = canonical;
      is_split = sym (append_nil p.components);
      is_found = a;
      is_joined = rw (append_nil canonical.components) (sym (cc));
      is_deepest = λ c cs rest split. cc;
    }
    go missing a h =
        climb-IsResolved canonicalize p (reverse p.components) [] q
          (rw (append_nil (reverse (reverse p.components)), reverse_twice p.components) refl)
          (missing_there a) h
      where
        missing_there :
            canonicalize p ≡ missing
            → (cs rest : List Component) → [] ≡ cs ++ rest
            → canonicalize (ancestor p (reverse (reverse p.components) ++ cs)) ≡ missing
        missing_there a [] rest split =
            rw (append_nil (reverse (reverse p.components)), reverse_twice p.components) a
        missing_there a (c ∷ cs) rest split = cc
    go failed a h = cc
