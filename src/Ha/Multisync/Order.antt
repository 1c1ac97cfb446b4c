-- ===== src/Ha/Multisync/Order.antt =====
-- The order in which the /sync key and `synchronous_standby_names` are changed where standbys are
-- synchronous by priority (patroni/ha.py): `_process_multisync_replication`.
use metatroni.Prelude.{
  ℕ, ◌≡◌, sym, ◌∙◌, ap, Bool, true, false, not, ◌&&◌, List, [], ◌∷◌, keep, Option, none, some,
  arith, if◌then◌else◌, if_cases, ◌==◌, length, Option-cases, inl, inr,
}
use metatroni.Prelude.Int.{pos}
use metatroni.Names.{Name, same}
use metatroni.Collections.{
  CaseInsensitiveSet, add, add_all, contains, from_list, inter, is_empty, set_eq, sorted,
}
use metatroni.Collections.Laws.{
  IsDistinct, contains-from_list, contains-inter, from_list-IsDistinct,
}
use metatroni.Collections.Size.{set_eq_iff}
use metatroni.Dcs.SyncState.{SyncState, SyncDict, voters, write_sync_state, from_dict, sync_state}
use metatroni.Dcs.SyncState.Laws.{IsPlain, AllPlain, from_dict-sync_state, contains-sorted}
use metatroni.Ha.Replication.Refines.{written, some_inj}
use metatroni.Ha.Multisync.{
  World, Seen, asterisk, is_other, on_write, write, promote, assign, narrow, repair, take_over,
  process_multisync_replication,
}

abbrev Within : List Name → List Name → Type 0
Within s t = (x : Name) → contains x s ≡ true → contains x t ≡ true

-- Every voter of the key is listed in `synchronous_standby_names`.
abbrev pub IsCovered : World → Type 0
IsCovered w = (x : Name) → contains x (voters w.sync) ≡ true → contains x w.names ≡ true

abbrev pub AllCovered : List World → Type 0
AllCovered [] = Unit {0}
AllCovered (w ∷ ws) = IsCovered w × AllCovered ws

-- What is asked for of the state that was seen: the confirmed standbys are active and listed in the
-- setting, those that are confirmed later are among the active ones, which the setting then lists,
-- and all names can be written to the key.
pub record IsSeen (o : Seen) (w : World) : Type 0 where
  pub name : IsPlain o.name
  pub plain : AllPlain o.current.chosen.sync_confirmed
  pub plain_later : AllPlain o.confirmed_later
  pub active : Within o.current.chosen.sync_confirmed o.current.chosen.active
  pub later : Within o.confirmed_later o.current.chosen.active
  pub listed : Within o.current.chosen.sync_confirmed w.names

add-AllPlain : (v : Name) (s : List Name) → IsPlain v → AllPlain s → AllPlain (add v s)
unfolding add
add-AllPlain v [] h k = (h, tt)
add-AllPlain v (u ∷ s) h k =
    if_cases AllPlain (same v u) (v ∷ s) (u ∷ add v s) (λ e. (h, k.1))
      (λ e. (k.0, add-AllPlain v s h k.1))

add_all-AllPlain : (s vs : List Name) → AllPlain s → AllPlain vs → AllPlain (add_all s vs)
unfolding add_all
add_all-AllPlain s [] h k = h
add_all-AllPlain s (v ∷ vs) h k = add_all-AllPlain (add v s) vs (add-AllPlain v s k.0 h) k.1

keep-AllPlain : (p : Name → Bool) (vs : List Name) → AllPlain vs → AllPlain (keep p vs)
keep-AllPlain p [] h = tt
keep-AllPlain p (v ∷ vs) h =
    if_cases AllPlain (p v) (v ∷ keep p vs) (keep p vs) (λ e. (h.0, keep-AllPlain p vs h.1))
      (λ e. keep-AllPlain p vs h.1)

inter-AllPlain : (s t : List Name) → AllPlain t → AllPlain (inter s t)
unfolding inter from_list
inter-AllPlain s t h = add_all-AllPlain [] (keep (λ v. contains v s) t) tt (keep-AllPlain _ t h)

inter-IsDistinct : (s t : List Name) → IsDistinct (inter s t)
unfolding inter
inter-IsDistinct s t = from_list-IsDistinct (keep (λ v. contains v s) t)

module _ (set_value : SyncDict → Option ℕ → Option ℕ) (o : Seen) where
  -- The key after it was written has the given voters, and the setting is left alone.
  write-voters :
      (ns : List Name) (w w' : World)
      → IsPlain o.name
      → AllPlain ns
      → write set_value o ns w ≡ some w'
      → ((x : Name) → contains x (voters w'.sync) ≡ contains x ns) × (w'.names ≡ w.names)
  unfolding write
  write-voters ns w w' l h e =
      elim (Option-cases (write_sync_state set_value (some o.name) ns (pos 0) w.sync.version)) [
        | inl refused ↦ absurd (nothing (rw (write, refused) at e))
        | inr (s, d) ↦
            let made : record { sync = s; names = w.names } ≡ w' = some_inj (rw (write, d) at e) in
            let (n, kept) = written set_value o.name ns 0 w.sync.version s d in
            let read : voters s ≡ sorted ns =
              ap voters (sym kept) ∙ (from_dict-sync_state (some n) o.name ns (pos 0) l h).2 in
            (
              λ x.
                  ap (λ (u : World). contains x (voters u.sync)) (sym made)
                  ∙ ap (contains x) read
                  ∙ contains-sorted x ns,
              ap (λ (u : World). u.names) (sym made),
            )
      ]
    where
      nothing : none ≡ some w' → ⊥
      nothing z = absurd (cc)

  -- What follows a write of names that the setting lists, if what comes after it is covered.
  write-AllCovered :
      (ns : List Name) (w : World) (next : World → List World)
      → IsPlain o.name
      → AllPlain ns
      → Within ns w.names
      → ((w' : World)
          → ((x : Name) → contains x (voters w'.sync) ≡ contains x ns)
          → w'.names ≡ w.names
          → AllCovered (next w'))
      → AllCovered (on_write (write set_value o ns w) next)
  write-AllCovered ns w next l h sub k = elim (Option-cases (write set_value o ns w)) [
    | inl refused ↦ rw refused tt
    | inr (w', e) ↦
        let (read, kept) = write-voters ns w w' l h e in
        rw e (λ x there. rw kept (sub x (sym (read x) ∙ there)), k w' read kept)
  ]

  -- What is promoted in the end.
  promoted :
      (a common : List Name) (w : World)
      → IsPlain o.name
      → AllPlain a
      → Within a w.names
      → AllCovered (
          if not (is_empty a) && not (set_eq a common)
          then on_write (write set_value o a w) (λ w'. [])
          else [])
  promoted a common w l h sub =
      if_cases AllCovered (not (is_empty a) && not (set_eq a common))
        (on_write (write set_value o a w) (λ w'. [])) []
        (λ e. write-AllCovered a w (λ w'. []) l h sub (λ w' read kept. tt)) (λ e. tt)

  promote-AllCovered :
      (picked common : CaseInsensitiveSet) (w v : World)
      → IsSeen o v
      → Within o.current.chosen.active w.names
      → AllCovered (promote set_value o picked common w)
  unfolding promote
  promote-AllCovered picked common w v h sub =
      if_cases
        (λ a. AllCovered (
          if not (is_empty a) && not (set_eq a common)
          then on_write (write set_value o a w) (λ w'. [])
          else []))
        (not (is_empty picked)
          && not (set_eq picked asterisk)
          && not (set_eq o.current.chosen.sync_confirmed picked))
        o.confirmed_later o.current.chosen.sync_confirmed
        (λ e. promoted o.confirmed_later common w h.name h.plain_later (λ x k. sub x (h.later x k)))
        (λ e.
          promoted o.current.chosen.sync_confirmed common w h.name h.plain
            (λ x k. sub x (h.active x k)))

  -- What is picked lists the active standbys: where the star is picked, there are none.
  picked-Within :
      (strict : Bool) (active : List Name)
      → Within active (if strict && is_empty active then asterisk else active)
  unfolding is_empty
  picked-Within true [] x k = absurd (nothing k)
    where
      nothing : contains x [] ≡ true → ⊥
      nothing z = unfold contains in absurd (cc)
  picked-Within true (v ∷ active) x k = k
  picked-Within false active x k = k

  assign-AllCovered :
      (common : CaseInsensitiveSet) (w v : World)
      → IsSeen o v
      → Within (voters w.sync) o.current.chosen.sync_confirmed
      → AllCovered (assign set_value o common w)
  unfolding assign
  assign-AllCovered common w v h k =
      let covers = picked-Within o.is_synchronous_mode_strict o.current.chosen.active in
      (
        λ x there. covers x (h.active x (k x there)),
        promote-AllCovered picked common (record { sync = w.sync; names = picked }) v h covers,
      )
    where
      picked : CaseInsensitiveSet
      picked =
          if o.is_synchronous_mode_strict && is_empty o.current.chosen.active
          then asterisk
          else o.current.chosen.active

  common-Within :
      (vs : CaseInsensitiveSet)
      → Within (inter vs o.current.chosen.sync_confirmed) o.current.chosen.sync_confirmed
  common-Within vs x k = ground (arith, contains-inter x vs o.current.chosen.sync_confirmed, k)

  narrow-AllCovered :
      (vs : CaseInsensitiveSet) (w : World)
      → IsDistinct vs
      → IsSeen o w
      → ((x : Name) → contains x (voters w.sync) ≡ contains x vs)
      → AllCovered (narrow set_value o vs w)
  unfolding narrow
  narrow-AllCovered vs w d h agree =
      if_cases AllCovered
        (set_eq o.current.chosen.active vs
          && set_eq vs o.current.sync
          && o.current.numsync == length o.current.chosen.active)
        []
        (if set_eq common vs
          then assign set_value o common w
          else on_write (write set_value o common w) (assign set_value o common))
        (λ e. tt)
        (λ e.
          if_cases AllCovered (set_eq common vs) (assign set_value o common w)
            (on_write (write set_value o common w) (assign set_value o common))
            (λ equal. assign-AllCovered common w w h (λ x k. common-Within vs x (
              (set_eq_iff common vs (inter-IsDistinct vs o.current.chosen.sync_confirmed) d).0 equal
                x
              ∙ sym (agree x)
              ∙ k)))
            (λ other.
              write-AllCovered common w (assign set_value o common) h.name
                (inter-AllPlain vs o.current.chosen.sync_confirmed h.plain)
                (λ x k. h.listed x (common-Within vs x k))
                (λ w' read kept.
                  assign-AllCovered common w' w h (λ x k. common-Within vs x (sym (read x) ∙ k)))))
    where
      common : CaseInsensitiveSet
      common = inter vs o.current.chosen.sync_confirmed

  -- The key may be written, the setting is as it was.
  after-IsSeen : (w w' : World) → w'.names ≡ w.names → IsSeen o w → IsSeen o w'
  after-IsSeen w w' kept h = record {
    name = h.name;
    plain = h.plain;
    plain_later = h.plain_later;
    active = h.active;
    later = h.later;
    listed = λ x k. rw kept (h.listed x k);
  }

  narrow-from_list :
      (w : World) → IsSeen o w → AllCovered (narrow set_value o (from_list (voters w.sync)) w)
  narrow-from_list w h =
      narrow-AllCovered (from_list (voters w.sync)) w (from_list-IsDistinct (voters w.sync)) h
        (λ x. sym (contains-from_list x (voters w.sync)))

  repair-AllCovered :
      (vs : CaseInsensitiveSet) (w : World)
      → IsDistinct vs
      → IsSeen o w
      → ((x : Name) → contains x (voters w.sync) ≡ contains x vs)
      → AllCovered (repair set_value o vs w)
  unfolding repair
  repair-AllCovered vs w d h agree =
      if_cases AllCovered
        (set_eq o.current.chosen.active vs && not (set_eq vs o.current.chosen.sync_confirmed))
        (on_write (write set_value o o.current.chosen.sync_confirmed w)
          (λ w'. narrow set_value o (from_list (voters w'.sync)) w'))
        (narrow set_value o vs w)
        (λ e.
          write-AllCovered o.current.chosen.sync_confirmed w
            (λ w'. narrow set_value o (from_list (voters w'.sync)) w') h.name h.plain h.listed
            (λ w' read kept. narrow-from_list w' (after-IsSeen w w' kept h)))
        (λ e. narrow-AllCovered vs w d h agree)

  nothing-Within : (s : List Name) → Within [] s
  nothing-Within s x k = absurd (clash k)
    where
      clash : contains x [] ≡ true → ⊥
      clash z = unfold contains in absurd (cc)

  take_over-AllCovered : (w : World) → IsSeen o w → AllCovered (take_over set_value o w)
  unfolding take_over
  take_over-AllCovered w h =
      if_cases AllCovered (is_other o.name w.sync.leader)
        (on_write (write set_value o [] w) (repair set_value o []))
        (repair set_value o (from_list (voters w.sync)) w)
        (λ e.
          write-AllCovered [] w (repair set_value o []) h.name tt (nothing-Within w.names)
            (λ w' read kept. repair-AllCovered [] w' tt (after-IsSeen w w' kept h) read))
        (λ e.
          repair-AllCovered (from_list (voters w.sync)) w (from_list-IsDistinct (voters w.sync)) h
            (λ x. sym (contains-from_list x (voters w.sync))))

  -- Whatever was written before and whichever write is refused, in every state that the primary goes
  -- through, each voter of the key is listed in synchronous_standby_names.
  pub process_multisync_replication-AllCovered :
      (w : World) → IsSeen o w → AllCovered (process_multisync_replication set_value o w)
  unfolding process_multisync_replication
  process_multisync_replication-AllCovered w h =
      if_cases AllCovered (metatroni.Dcs.SyncState.is_empty w.sync)
        (on_write (write set_value o [] w) (take_over set_value o)) (take_over set_value o w)
        (λ e.
          write-AllCovered [] w (take_over set_value o) h.name tt (nothing-Within w.names)
            (λ w' read kept. take_over-AllCovered w' (after-IsSeen w w' kept h)))
        (λ e. take_over-AllCovered w h)
