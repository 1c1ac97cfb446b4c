-- ===== src/Dcs/SyncState/Laws.antt =====
-- What is written to the `/sync` key is read back (patroni/dcs/__init__.py), and the search in its
-- text agrees with the sets of names that the leader race uses.
use metatroni.Prelude.{
  ℕ, ◌≡◌, refl, sym, ap, ◌∙◌, Bool, true, false, not, ◌&&◌, ◌||◌, List, [], ◌∷◌, ◌++◌, map, keep,
  Option, none, some, arith, Bool-cases, inl, inr, if◌then◌else◌,
}
use mathlib.Core.Path.{subst}
use mathlib.Core.List.{map-append, append-nil}
use metatroni.Prelude.Int.{ℤ, pos, is_zero}
use metatroni.Names.{Name, name_eq, lower, same, name_le}
use metatroni.Names.Text.{
  split_on, strip, join, Separate, has_code, split_on-join, split_on-lower, strip-lower,
  split_on-append,
}
use metatroni.Collections.{contains, sorted, insert_sorted}
use metatroni.Collections.Laws.{contains-append}
use metatroni.Dcs.SyncState.{
  SyncState, is_set, or_empty, from_dict, quorum_of, is_empty, str_to_list, voters, members,
  is_listed, search_text, matches, sync_state, standby_text,
}

-- A name that the text of the key can hold: not empty, no comma, no space at its ends.
pub record IsPlain (w : Name) : Type 0 where
  pub nonempty : name_eq w [] ≡ false
  pub no_comma : has_code b',' w ≡ false
  pub stripped : strip w ≡ w

abbrev pub AllPlain : List Name → Type 0
AllPlain [] = Unit {0}
AllPlain (w ∷ ws) = IsPlain w × AllPlain ws

AllPlain-Separate : (ws : List Name) → AllPlain ws → Separate b',' ws
AllPlain-Separate [] h = tt
AllPlain-Separate (w ∷ ws) h = (h.0.no_comma, AllPlain-Separate ws h.1)

keep-plain : (ws : List Name) → AllPlain ws → keep (λ w. not (name_eq w [])) (map strip ws) ≡ ws
keep-plain [] h = refl
keep-plain (w ∷ ws) h = rw (h.0.stripped, h.0.nonempty, keep-plain ws h.1)

str_to_list-join :
    (w : Name) (ws : List Name) → AllPlain (w ∷ ws) → str_to_list (join b',' (w ∷ ws)) ≡ w ∷ ws
unfolding str_to_list
str_to_list-join w ws h =
    rw (split_on-join b',' w ws (AllPlain-Separate (w ∷ ws) h)) (keep-plain (w ∷ ws) h)

insert_sorted-AllPlain :
    (w : Name) (ws : List Name) → IsPlain w → AllPlain ws → AllPlain (insert_sorted w ws)
unfolding insert_sorted
insert_sorted-AllPlain w [] p h = (p, tt)
insert_sorted-AllPlain w (v ∷ ws) p h = elim (Bool-cases (name_le w v)) [
  | inl first ↦ rw first (p, h)
  | inr later ↦ rw later (h.0, insert_sorted-AllPlain w ws p h.1)
]

sorted-AllPlain : (ws : List Name) → AllPlain ws → AllPlain (sorted ws)
unfolding sorted
sorted-AllPlain [] h = tt
sorted-AllPlain (w ∷ ws) h = insert_sorted-AllPlain w (sorted ws) h.0 (sorted-AllPlain ws h.1)

insert_sorted-cons :
    (w : Name) (ws : List Name) → (v : Name) × (vs : List Name) × (insert_sorted w ws ≡ v ∷ vs)
unfolding insert_sorted
insert_sorted-cons w [] = (w, [], refl)
insert_sorted-cons w (v ∷ ws) = elim (Bool-cases (name_le w v)) [
  | inl first ↦ (w, v ∷ ws, rw first)
  | inr later ↦ (v, insert_sorted w ws, rw later)
]

contains-insert_sorted :
    (x w : Name) (ws : List Name) → contains x (insert_sorted w ws) ≡ (same x w || contains x ws)
unfolding insert_sorted contains
contains-insert_sorted x w [] = refl
contains-insert_sorted x w (v ∷ ws) = ground (arith, contains-insert_sorted x w ws)

pub contains-sorted : (x : Name) (ws : List Name) → contains x (sorted ws) ≡ contains x ws
unfolding sorted contains
contains-sorted x [] = refl
contains-sorted x (w ∷ ws) =
    contains-insert_sorted x w (sorted ws) ∙ ap (λ b. same x w || b) (contains-sorted x ws)

-- A plain text that is there.
IsPlain-is_set : (w : Name) → IsPlain w → is_set (some w) ≡ true
unfolding is_set name_eq
IsPlain-is_set [] h = absurd (ground (arith, h.nonempty))
IsPlain-is_set (c ∷ w) h = refl

is_set-join : (v : Name) (vs : List Name) → IsPlain v → is_set (some (join b',' (v ∷ vs))) ≡ true
unfolding is_set join name_eq
is_set-join [] vs h = absurd (ground (arith, h.nonempty))
is_set-join (c ∷ v) [] h = refl
is_set-join (c ∷ v) (u ∷ vs) h = refl

joined :
    (ls : List Name) (v : Name) (vs : List Name)
    → ls ≡ v ∷ vs
    → AllPlain ls
    → (is_set (some (join b',' ls)) ≡ true) × (str_to_list (join b',' ls) ≡ ls)
joined ls v vs e h =
    let plain : AllPlain (v ∷ vs) = subst AllPlain e h in
    (rw e (is_set-join v vs plain.0), rw e (str_to_list-join v vs plain))

standby_text-lem :
    (w : Name) (ws : List Name)
    → AllPlain (w ∷ ws)
    → (is_set (standby_text (w ∷ ws)) ≡ true)
      × (str_to_list (or_empty (standby_text (w ∷ ws))) ≡ sorted (w ∷ ws))
unfolding sorted
standby_text-lem w ws h =
    let (v, vs, e) = insert_sorted-cons w (sorted ws) in
    joined (sorted (w ∷ ws)) v vs e (sorted-AllPlain (w ∷ ws) h)

kept_quorum : (q : ℤ) → (if true && not (is_zero q) then q else pos 0) ≡ q
kept_quorum q = ground arith

pub voters-str_to_list :
    (s : SyncState)
    → is_set s.leader ≡ true
    → is_set s.sync_standby ≡ true
    → voters s ≡ str_to_list (or_empty s.sync_standby)
unfolding voters is_empty
voters-str_to_list s h k = rw (h, k)

no_voters : (s : SyncState) → is_set s.sync_standby ≡ false → voters s ≡ []
unfolding voters
no_voters s h = ground (arith, h)

-- What `write_sync_state` puts into the key is read back: the leader, the quorum, and as voters
-- the given names in order. The names are not empty, hold no comma and no space at their ends.
pub from_dict-sync_state :
    (version : Option ℕ) (leader : Name) (names : List Name) (quorum : ℤ)
    → IsPlain leader
    → AllPlain names
    → let s = from_dict version (sync_state (some leader) names quorum) in
      (s.leader ≡ some leader) × (s.quorum ≡ quorum) × (voters s ≡ sorted names)
unfolding from_dict sync_state quorum_of sorted
from_dict-sync_state version leader [] quorum l h =
    (refl, rw (IsPlain-is_set leader l) (kept_quorum quorum), no_voters _ (unfold is_set in refl))
from_dict-sync_state version leader (w ∷ ws) quorum l h = (
  refl,
  rw (IsPlain-is_set leader l) (kept_quorum quorum),
  voters-str_to_list _ (IsPlain-is_set leader l) (standby_text-lem w ws h).0
      ∙ (standby_text-lem w ws h).1,
)

keep-lower :
    (ws : List Name)
    → keep (λ w. not (name_eq w [])) (map lower ws) ≡ map lower (keep (λ w. not (name_eq w [])) ws)
unfolding name_eq lower
keep-lower [] = refl
keep-lower ([] ∷ ws) = keep-lower ws
keep-lower ((c ∷ w) ∷ ws) = rw (keep-lower ws)

map-strip-lower : (ws : List Name) → map strip (map lower ws) ≡ map lower (map strip ws)
map-strip-lower [] = refl
map-strip-lower (w ∷ ws) = rw (strip-lower w, map-strip-lower ws)

str_to_list-lower : (t : Name) → str_to_list (lower t) ≡ map lower (str_to_list t)
unfolding str_to_list
str_to_list-lower t =
    rw (split_on-lower b',' t refl, map-strip-lower (split_on b',' t)) (keep-lower _)

is_listed-lower : (n : Name) (ws : List Name) → is_listed (lower n) (map lower ws) ≡ contains n ws
unfolding is_listed contains same
is_listed-lower n [] = refl
is_listed-lower n (w ∷ ws) = rw (is_listed-lower n ws)

no_names : (t : Name) → is_set (some t) ≡ false → str_to_list t ≡ []
unfolding str_to_list is_set split_on strip name_eq
no_names [] h = refl
no_names (c ∷ t) h = absurd (cc)

standbys_of :
    (s : SyncState) → is_set s.leader ≡ true → voters s ≡ str_to_list (or_empty s.sync_standby)
standbys_of s h = elim (Bool-cases (is_set s.sync_standby)) [
  | inl given ↦ voters-str_to_list s h given
  | inr none_given ↦ no_voters s none_given ∙ sym (unset s.sync_standby none_given)
]
  where
    unset : (t : Option Name) → is_set t ≡ false → str_to_list (or_empty t) ≡ []
    unset none k = no_names [] (unfold is_set in refl)
    unset (some t) k = no_names t k

keep-append : (p : Name → Bool) (a b : List Name) → keep p (a ++ b) ≡ keep p a ++ keep p b
keep-append p [] b = refl
keep-append p (w ∷ a) b = elim (Bool-cases (p w)) [
  | inl kept ↦ rw (kept, keep-append p a b)
  | inr dropped ↦ rw (dropped, keep-append p a b)
]

str_to_list-comma : (a b : Name) → str_to_list (a ++ (b',' ∷ b)) ≡ str_to_list a ++ str_to_list b
unfolding str_to_list
str_to_list-comma a b = rw (split_on-append, map-append) (keep-append (λ w. not (name_eq w [])) _ _)

-- The search in a text, against the set of the names in it.
search_lower :
    (n t : Name) → is_listed (lower n) (str_to_list (lower t)) ≡ contains n (str_to_list t)
search_lower n t = rw (str_to_list-lower t) (is_listed-lower n (str_to_list t))

matches-is_listed :
    (s : SyncState) (n : Name) (check_leader : Bool)
    → is_set s.leader ≡ true
    → is_set (some n) ≡ true
    → matches s (some n) check_leader
      ≡ is_listed (lower n) (str_to_list (lower (search_text s check_leader)))
unfolding matches
matches-is_listed s n check_leader h k = rw (h, k)

members-voters : (s : SyncState) → is_set s.leader ≡ true → members s ≡ or_empty s.leader ∷ voters s
unfolding members
members-voters s h = rw h

or_comm : (a b : Bool) → (a || b) ≡ (b || a)
or_comm a b = ground arith

contains-cons :
    (n w : Name) (ws : List Name) → contains n (w ∷ ws) ≡ (contains n (w ∷ []) || contains n ws)
unfolding contains
contains-cons n w ws = ground arith

-- The case-insensitive search of `matches` in the text of the key finds exactly the names that are
-- in the set of the voters, for a key with a leader and a name that is not empty.
pub matches-contains :
    (s : SyncState) (n : Name)
    → is_set s.leader ≡ true
    → is_set (some n) ≡ true
    → matches s (some n) false ≡ contains n (voters s)
unfolding search_text
matches-contains s n h k =
    matches-is_listed s n false h k
    ∙ search_lower n (or_empty s.sync_standby ++ [])
    ∙ ap (λ t. contains n (str_to_list t)) (append-nil (or_empty s.sync_standby))
    ∙ ap (contains n) (sym (standbys_of s h))

str_to_list_one : (w : Name) → IsPlain w → str_to_list w ≡ w ∷ []
unfolding join
str_to_list_one w h = str_to_list-join w [] (h, tt)

leader_last :
    (n leader t : Name)
    → IsPlain leader
    → contains n (str_to_list (t ++ (b',' ∷ leader)))
      ≡ (contains n (leader ∷ []) || contains n (str_to_list t))
leader_last n leader t l =
    rw (str_to_list-comma t leader, contains-append, str_to_list_one leader l)
      (or_comm (contains n (str_to_list t)) (contains n (leader ∷ [])))

-- With `check_leader` it finds the voters and the leader, whose name is not empty and holds no
-- comma and no space at its ends.
pub matches-contains_leader :
    (s : SyncState) (leader n : Name)
    → s.leader ≡ some leader
    → IsPlain leader
    → is_set (some n) ≡ true
    → matches s (some n) true ≡ contains n (members s)
unfolding search_text
matches-contains_leader s leader n e l k =
    let h : is_set s.leader ≡ true = rw e (IsPlain-is_set leader l) in
    matches-is_listed s n true h k
    ∙ search_lower n (or_empty s.sync_standby ++ (b',' ∷ or_empty s.leader))
    ∙ rw
        (
          members-voters s h,
          standbys_of s h,
          e,
          contains-cons n leader (str_to_list (or_empty s.sync_standby)),
        )
        (leader_last n leader (or_empty s.sync_standby) l)
