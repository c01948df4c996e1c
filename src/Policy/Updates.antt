-- ===== src/Policy/Updates.antt =====
-- What a policy update does to a list of the configuration.
use a_hand.Base.{◌≡◌, refl, not, ◌&&◌, ◌||◌, List, [], ◌∷◌, ◌++◌, arith, ◌==◌, keep, elem}
use a_hand.Base.Text.{Text, text_eq, text_beq_iff}
use a_hand.Policy.{push_new, add_items, apply_list_update}

elem-append : (x : Text) (s t : List Text) → elem x (s ++ t) ≡ (elem x s || elem x t)
elem-append x [] t = refl
elem-append x (a ∷ s) t = ground (arith, elem-append x s t)

elem-push_new : (x a : Text) (s : List Text) → elem x (push_new a s) ≡ (a == x || elem x s)
elem-push_new x a s = ground (arith, text_beq_iff a x, elem-append x s (a ∷ []))

elem-add_items :
    (x : Text) (list add : List Text) → elem x (add_items list add) ≡ (elem x add || elem x list)
unfolding add_items
elem-add_items x list [] = refl
elem-add_items x list (a ∷ add) =
    ground (arith, elem-add_items x (push_new a list) add, elem-push_new x a list)

elem-removed :
    (x : Text) (list remove : List Text)
    → elem x (keep (λ item. not (elem item remove)) list) ≡ (elem x list && not (elem x remove))
elem-removed x [] remove = refl
elem-removed x (a ∷ list) remove = ground (arith, text_beq_iff a x, elem-removed x list remove)

-- After an update a list holds what is added, and what it held that is not removed; an item
-- that is both added and removed stays.
elem-apply_list_update :
    (x : Text) (list add remove : List Text)
    → elem x (apply_list_update list add remove)
      ≡ (elem x add || (elem x list && not (elem x remove)))
unfolding apply_list_update
elem-apply_list_update x list add remove = ground (
  arith,
  elem-add_items x (keep (λ item. not (elem item remove)) list) add,
  elem-removed x list remove,
)
