-- ===== src/Examples/Filing.antt =====
-- A database that has room for one record, and a page of it.
use thunder_go.Prelude.{
  ◌≡◌, refl, sym, ap, ◌∙◌, subst, ◌⊎◌, inl, inr, Bool, true, false, Option, none, some, arith,
  if◌then◌else◌, Bool-cases,
}
use thunder_go.Cache.{new_cache}
use thunder_go.Cache.Peek.{peek}
use thunder_go.Examples.Settings.{settings}
use thunder_go.Examples.Streaming.{hello_record}
use thunder_go.Http.Pages.{handle_player_page}
use thunder_go.Http.Pages.Shown.{IsShown, handle_player_page-IsShown}
use thunder_go.Prelude.Text.{Text, codes, text_eq, is_empty}
use thunder_go.Prelude.Text.Laws.{text_eq_iff, text_eq_refl}
use thunder_go.Store.{FileRecord}
use thunder_go.Store.Files.{Collection, Files}
use thunder_go.Store.Files.Current.{Current}
use thunder_go.Store.Files.Honest.{View, IsSame, IsNamed, without_counts, Honest}
use thunder_go.Store.Files.Steps.{replaces, after_call, after_call-Current}
use thunder_go.Tgutil.Base32.{normalize_base32}

abbrev Drawer : Type 0
Drawer = Option FileRecord

abbrev with_key : Text → Drawer → Option FileRecord
with_key k none = none
with_key k (some g) = if text_eq g.file_key k then some g else none

abbrev with_hash : Text → Drawer → Option FileRecord
with_hash h none = none
with_hash h (some g) = if text_eq g.hash h then some g else none

abbrev put_in : FileRecord → Drawer → Bool × Drawer
put_in f none = (true, some f)
put_in f (some g) = (false, some g)

abbrev put_over : FileRecord → Drawer → Bool × Drawer
put_over f none = (true, some f)
put_over f (some g) = if text_eq f.file_key g.file_key then (true, some f) else (false, some g)

abbrev take_out : Text → Drawer → Bool × Drawer
take_out h none = (true, none)
take_out h (some g) = if text_eq h g.hash then (true, none) else (true, some g)

abbrev drawer : Collection Drawer
drawer = record {
  insert_one = put_in;
  replace_one = put_over;
  delete_one = take_out;
  update_one = λ k s. (true, s);
  find_one_by_key = λ k s. some (with_key k s);
  find_one_by_hash = λ h s. some (with_hash h s);
}

abbrev drawer_view : View Drawer
drawer_view = record { by_key = with_key; by_hash = with_hash }

with_key-found :
    (k : Text) (s : Drawer) (d : FileRecord)
    → with_key k s ≡ some d
    → (s ≡ some d) × (d.file_key ≡ k)
with_key-found k none d e = cc
with_key-found k (some g) d e = elim (Bool-cases (text_eq g.file_key k)) [
  | inl p ↦
      let same : g ≡ d = cc (rw p at e) in
      (ap (λ x. some x) same, subst (λ x. x.file_key ≡ k) same ((text_eq_iff g.file_key k).0 p))
  | inr p ↦ cc (rw p at e)
]

with_hash-found :
    (h : Text) (s : Drawer) (d : FileRecord) → with_hash h s ≡ some d → (s ≡ some d) × (d.hash ≡ h)
with_hash-found h none d e = cc
with_hash-found h (some g) d e = elim (Bool-cases (text_eq g.hash h)) [
  | inl p ↦
      let same : g ≡ d = cc (rw p at e) in
      (ap (λ x. some x) same, subst (λ x. x.hash ≡ h) same ((text_eq_iff g.hash h).0 p))
  | inr p ↦ cc (rw p at e)
]

shown_by_key : (d : FileRecord) → with_key d.file_key (some d) ≡ some d
shown_by_key d = rw (text_eq_refl d.file_key) refl

shown_by_hash : (d : FileRecord) → with_hash d.hash (some d) ≡ some d
shown_by_hash d = rw (text_eq_refl d.hash) refl

insert_keeps_lem :
    (f : FileRecord) (k : Text) (s : Drawer) (d : FileRecord)
    → with_key k s ≡ some d
    → with_key k (put_in f s).1 ≡ some d
insert_keeps_lem f k none d e = cc
insert_keeps_lem f k (some g) d e = e

insert_ok_lem :
    (f : FileRecord) (s : Drawer)
    → (put_in f s).0 ≡ true
    → with_key f.file_key (put_in f s).1 ≡ some f
insert_ok_lem f none e = shown_by_key f
insert_ok_lem f (some g) e = cc

-- The record that is there is the one asked for.
found_is : (f d : FileRecord) (k : Text) → with_key k (some f) ≡ some d → IsSame f d
found_is f d k e =
    let both : some f ≡ some d = (with_key-found k (some f) d e).0 in
    let same : f ≡ d = cc both in ap without_counts same

insert_only_lem :
    (f : FileRecord) (k : Text) (s : Drawer) (d : FileRecord)
    → with_key k (put_in f s).1 ≡ some d
    → IsSame f d ⊎ (with_key k s ≡ some d)
insert_only_lem f k none d e = inl (found_is f d k e)
insert_only_lem f k (some g) d e = inr e

replace_keeps_lem :
    (f : FileRecord) (k : Text) (s : Drawer) (d : FileRecord)
    → text_eq f.file_key k ≡ false
    → with_key k s ≡ some d
    → with_key k (put_over f s).1 ≡ some d
replace_keeps_lem f k none d n e = cc
replace_keeps_lem f k (some g) d n e =
    let (same, key) = with_key-found k (some g) d e in
    elim (Bool-cases (text_eq f.file_key g.file_key)) [
      | inl p ↦
          let one : f.file_key ≡ g.file_key = (text_eq_iff f.file_key g.file_key).0 p in
          let two : g ≡ d = cc in
          let hit = (text_eq_iff f.file_key k).1 (one ∙ (ap (λ r. r.file_key) two ∙ key)) in
          absurd (ground arith)
      | inr p ↦ rw p e
    ]

replace_ok_lem :
    (f : FileRecord) (s : Drawer)
    → (put_over f s).0 ≡ true
    → with_key f.file_key (put_over f s).1 ≡ some f
replace_ok_lem f none e = shown_by_key f
replace_ok_lem f (some g) e = elim (Bool-cases (text_eq f.file_key g.file_key)) [
  | inl p ↦ rw p (shown_by_key f)
  | inr p ↦ cc (rw p at e)
]

replace_only_lem :
    (f : FileRecord) (k : Text) (s : Drawer) (d : FileRecord)
    → with_key k (put_over f s).1 ≡ some d
    → IsSame f d ⊎ (with_key k s ≡ some d)
replace_only_lem f k none d e = inl (found_is f d k e)
replace_only_lem f k (some g) d e = elim (Bool-cases (text_eq f.file_key g.file_key)) [
  | inl p ↦ inl (found_is f d k (rw p at e))
  | inr p ↦ inr (rw p at e)
]

delete_keeps_lem :
    (h k : Text) (s : Drawer) (d : FileRecord)
    → text_eq h d.hash ≡ false
    → with_key k s ≡ some d
    → with_key k (take_out h s).1 ≡ some d
delete_keeps_lem h k none d n e = cc
delete_keeps_lem h k (some g) d n e =
    let same = (with_key-found k (some g) d e).0 in
    let one : d ≡ g = cc in
    let miss : text_eq h g.hash ≡ false = subst (λ r. text_eq h r.hash ≡ false) one n in rw miss e

delete_only_lem :
    (h k : Text) (s : Drawer) (d : FileRecord)
    → with_key k (take_out h s).1 ≡ some d
    → with_key k s ≡ some d
delete_only_lem h k none d e = cc
delete_only_lem h k (some g) d e = elim (Bool-cases (text_eq h g.hash)) [
  | inl p ↦ cc (rw p at e)
  | inr p ↦ rw p at e
]

drawer-Honest : Honest drawer drawer_view
drawer-Honest = record {
  finds_key = λ k s o e. cc;
  finds_hash = λ h s o e. cc;
  key_found = λ k s d e.
      let (at, key) = with_key-found k s d e in
      (key, subst (λ t. with_hash d.hash t ≡ some d) (sym at) (shown_by_hash d));
  hash_found = λ h s d e.
      let (at, hash) = with_hash-found h s d e in
      (hash, subst (λ t. with_key d.file_key t ≡ some d) (sym at) (shown_by_key d));
  insert_keeps = insert_keeps_lem;
  insert_ok = λ f s e. (f, insert_ok_lem f s e, refl);
  insert_only = insert_only_lem;
  replace_keeps = replace_keeps_lem;
  replace_ok = λ f s e. (f, replace_ok_lem f s e, refl);
  replace_only = replace_only_lem;
  delete_keeps = delete_keeps_lem;
  delete_only = delete_only_lem;
  update_keeps = λ j k s d e. (d, e, refl);
  update_only = λ j k s e at. (e, at, refl);
}

abbrev cold : Files Drawer
cold = record {
  files = some hello_record;
  file_by_hash = new_cache 10 100;
  file_by_key = new_cache 10 100;
}

cold-Current : Current drawer drawer_view cold
unfolding new_cache peek thunder_go.Cache.find is_empty
cold-Current = record {
  named = λ k d e.
      let same : some hello_record ≡ some d = (with_key-found k (some hello_record) d e).0 in
      let one : hello_record ≡ d = cc same in subst IsNamed one (refl, refl);
  keys = record { distinct = tt; right = λ j v x e. cc };
  hashes = record { distinct = tt; right = λ j v x e. cc };
}

abbrev moved_record : FileRecord
moved_record = record hello_record { hash = codes "abd" }

after_call-Current_example :
    Current drawer drawer_view (after_call drawer (replaces 5 moved_record) cold)
after_call-Current_example =
    after_call-Current drawer drawer_view drawer-Honest (replaces 5 moved_record) cold
      (unfold is_empty in (refl, refl)) cold-Current

handle_player_page-IsShown_example :
    IsShown
      (λ t. t)
      settings
      (normalize_base32 (codes "ABC"))
      (with_hash (normalize_base32 (codes "ABC")) (some hello_record))
      (handle_player_page (λ t. t) settings drawer 5 (codes "ABC") cold).0
handle_player_page-IsShown_example =
    handle_player_page-IsShown (λ t. t) settings drawer drawer_view drawer-Honest 5 (codes "ABC")
      cold cold-Current
