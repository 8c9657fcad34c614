-- ===== src/Peers/ServiceNodes/Replacement.antt =====
-- oxenmq/auth.cpp: `set_active_sns` finds all that changes, although it may stop early.
use oxen_mq.Common.{
  ℕ, ◌+◌, ◌-◌, ◌≡◌, refl, sym, ◌∙◌, ap, inl, inr, Bool, true, false, not, ◌&&◌, ◌||◌, List, [], ◌∷◌,
  ◌++◌, Bytes, bytes_eq, bytes_eq_sym, eq_of_bytes_eq, ◌==◌, length, length-append, is_empty, keep,
  if◌then◌else◌, Bool-cases, arith,
}
use oxen_mq.Peers.{Net, has}
use oxen_mq.Peers.ServiceNodes.{is_pubkey, find_removed, proxy_set_active_sns}
use oxen_mq.Peers.ServiceNodes.Membership.{IsDistinct, has-keep, clean-active}

abbrev absent : List Bytes → Bytes → Bool
absent v pk = not (has pk v)

length-keep :
    (p : Bytes → Bool) (s : List Bytes)
    → length (keep p s) + length (keep (λ x. not (p x)) s) ≡ length s
length-keep p [] = refl
length-keep p (x ∷ s) = ground (arith, length-keep p s)

abbrev one_if : Bool → ℕ
one_if true = 1
one_if false = 0

-- Of two sets, one with an element that the other may have.
common_more :
    (x : Bytes) (a b : List Bytes)
    → IsDistinct b
    → has x a ≡ false
    → length (keep (λ y. has y (x ∷ a)) b) ≡ one_if (has x b) + length (keep (λ y. has y a) b)
common_more x a [] d h = refl
common_more x a (y ∷ b) d h = elim (Bool-cases (bytes_eq y x)) [
  | inl e ↦
      let same : has y b ≡ has x b = ap (λ z. has z b) (eq_of_bytes_eq y x e) in
      let same_a : has y a ≡ has x a = ap (λ z. has z a) (eq_of_bytes_eq y x e) in
      ground (arith, common_more x a b d.1 h, bytes_eq_sym y x)
  | inr n ↦ ground (arith, common_more x a b d.1 h, bytes_eq_sym y x)
]

keep_none : (b : List Bytes) → length (keep (λ y. has y []) b) ≡ 0
keep_none [] = refl
keep_none (y ∷ b) = keep_none b

-- Two sets have as many elements in common either way.
common_sym :
    (a b : List Bytes)
    → IsDistinct a
    → IsDistinct b
    → length (keep (λ y. has y b) a) ≡ length (keep (λ y. has y a) b)
common_sym [] b da db = sym (keep_none b)
common_sym (x ∷ a) b da db = ground (arith, common_sym a b da.1 db, common_more x a b db da.0)

append_nil : (s : List Bytes) → s ++ [] ≡ s
append_nil [] = refl
append_nil (x ∷ s) = ap (◌∷◌ x) (append_nil s)

append_snoc : (s : List Bytes) (x : Bytes) (t : List Bytes) → (s ++ x ∷ []) ++ t ≡ s ++ x ∷ t
append_snoc [] x t = refl
append_snoc (y ∷ s) x t = ap (◌∷◌ y) (append_snoc s x t)

nil_of_length : (s : List Bytes) → length s ≡ 0 → s ≡ []
nil_of_length [] h = refl
nil_of_length (x ∷ s) h = absurd (omega arith)

-- One test of the loop: if the sizes fit, nothing more is absent.
find_removed_round :
    (total wanted : ℕ) (v pks now : List Bytes)
    → total ≡ wanted + length now + length (keep (absent v) pks)
    → find_removed total wanted v pks now ≡ now ++ keep (absent v) pks
    → elim (total - length now == wanted) [
      | true ↦ now
      | false ↦ find_removed total wanted v pks now
    ]
      ≡ now ++ keep (absent v) pks
find_removed_round total wanted v pks now h e = elim (Bool-cases (total - length now == wanted)) [
  | inl stop ↦ rw (stop, nil_of_length (keep (absent v) pks) (ground arith)) (sym (append_nil now))
  | inr more ↦ rw more e
]

joined :
    (acc v : List Bytes) (pk : Bytes) (pks : List Bytes)
    → (if has pk v then acc else acc ++ pk ∷ []) ++ keep (absent v) pks
      ≡ acc ++ keep (absent v) (pk ∷ pks)
joined acc v pk pks = elim (Bool-cases (has pk v)) [
  | inl k ↦ rw (k, keep) refl
  | inr k ↦ rw (k, keep) (append_snoc acc pk (keep (absent v) pks))
]

-- The loop finds all the active keys that the new set lacks, although it may stop early.
find_removed_all :
    (total wanted : ℕ) (v pks acc : List Bytes)
    → total ≡ wanted + length acc + length (keep (absent v) pks)
    → find_removed total wanted v pks acc ≡ acc ++ keep (absent v) pks
find_removed_all total wanted v [] acc h = sym (append_nil acc)
find_removed_all total wanted v (pk ∷ pks) acc h =
    let now = if has pk v then acc else acc ++ pk ∷ [] in
    let h' : total ≡ wanted + length now + length (keep (absent v) pks) =
      ground (arith, length-append acc (pk ∷ [])) in
    find_removed_round total wanted v pks now h' (find_removed_all total wanted v pks now h')
    ∙ joined acc v pk pks

nil_of_is_empty : (s : List Bytes) → is_empty s ≡ true → s ≡ []
nil_of_is_empty [] h = refl
nil_of_is_empty (x ∷ s) h = cc

same_bools : (a v : Bool) → not a && v ≡ false → not v && a ≡ false → a ≡ v
same_bools a v h k = ground arith

set_bools : (a v : Bool) → (not a && v) || (a && not (not v && a)) ≡ v
set_bools a v = ground arith

keep-IsDistinct : (p : Bytes → Bool) (s : List Bytes) → IsDistinct s → IsDistinct (keep p s)
keep-IsDistinct p [] h = h
keep-IsDistinct p (x ∷ s) h = elim (Bool-cases (p x)) [
  | inl k ↦ rw (k, keep) (has-keep p x s ∙ rw (k, h.0) refl, keep-IsDistinct p s h.1)
  | inr k ↦ rw (k, keep) (keep-IsDistinct p s h.1)
]

-- The test that skips the update: nothing to add and as many keys.
unchanged :
    (a v : List Bytes)
    → IsDistinct a
    → IsDistinct v
    → is_empty (keep (absent a) v) && length a == length v ≡ true
    → (pk : Bytes) → has pk a ≡ has pk v
unchanged a v da dv h pk =
    let none_added : keep (absent a) v ≡ [] = nil_of_is_empty (keep (absent a) v) (ground arith) in
    let none_removed : keep (absent v) a ≡ [] = nil_of_length (keep (absent v) a) (
      ground (
        arith,
        common_sym a v da dv,
        length-keep (λ y. has y a) v,
        length-keep (λ y. has y v) a,
        ap length none_added,
      )) in
    let left : absent a pk && has pk v ≡ false =
      sym (has-keep (absent a) pk v) ∙ ap (has pk) none_added in
    let right : absent v pk && has pk a ≡ false =
      sym (has-keep (absent v) pk a) ∙ ap (has pk) none_removed in
    same_bools (has pk a) (has pk v) left right

sizes :
    (a v : List Bytes)
    → IsDistinct a
    → IsDistinct v
    → length a + length (keep (absent a) v) ≡ length v + 0 + length (keep (absent v) a)
sizes a v da dv =
    ground (arith, common_sym a v da dv, length-keep (λ y. has y a) v, length-keep (λ y. has y v) a)

set_result :
    (a v : List Bytes) (pk : Bytes) {removed : List Bytes}
    → removed ≡ keep (absent v) a
    → has pk (keep (absent a) v) || (has pk a && not (has pk removed)) ≡ has pk v
set_result a v pk e =
    rw (e, has-keep (absent a) pk v, has-keep (absent v) pk a) (set_bools (has pk a) (has pk v))

-- `set_active_sns` makes the active set exactly the keys given that are pubkeys, although it skips
-- an update when the sizes fit, and stops looking for removed keys when it has found enough.
pub proxy_set_active_sns-has :
    (pubkeys : List Bytes) (n : Net)
    → IsDistinct pubkeys
    → IsDistinct n.active_service_nodes
    → (pk : Bytes)
    → has pk (proxy_set_active_sns pubkeys n).active_service_nodes ≡ is_pubkey pk && has pk pubkeys
unfolding proxy_set_active_sns
proxy_set_active_sns-has pubkeys n dp da pk =
    let a = n.active_service_nodes in
    let v = keep is_pubkey pubkeys in
    let dv : IsDistinct v = keep-IsDistinct is_pubkey pubkeys dp in
    elim (Bool-cases (is_empty (keep (absent a) v) && length a == length v)) [
      | inl skip ↦ rw skip (unchanged a v da dv skip pk ∙ has-keep is_pubkey pk pubkeys)
      | inr differ ↦ rw differ (
          clean-active (keep (absent a) v)
            (find_removed (length a + length (keep (absent a) v)) (length v) v a []) n pk
          ∙ set_result a v pk (find_removed_all _ _ v a [] (sizes a v da dv))
          ∙ has-keep is_pubkey pk pubkeys)
    ]
