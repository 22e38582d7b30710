-- ===== src/Stream/Vault.antt =====
-- internal/stream/handler.go: `resolveVaultMedia` and `isPermanentVaultError`. What the vault
-- lookup of the chosen client comes to is a parameter: it stands for Telegram and the time limit.
use thunder_go.Prelude.{
  ◌≡◌, refl, ap, subst, ◌⊎◌, inl, inr, Bool, true, false, not, ◌&&◌, ◌||◌, List, [], ◌∷◌, arith,
  if◌then◌else◌,
}
use thunder_go.Prelude.Int.{eqb_ℤ_iff, ℤ, pos, leb_ℤ, eqb_ℤ}
use thunder_go.Prelude.Text.{Text, codes, text_eq, is_empty}
use thunder_go.Prelude.Text.Laws.{text_eq_iff}
use thunder_go.Store.{FileRecord}
use thunder_go.Tgutil.Media.{Message, file_key, extract_size}

-- The last three are the errors of the gogram library that the code looks into, and any other.
pub data VaultError : Type 0 where
  message_missing message_no_media record_mismatch : VaultError
  code_response : Text → VaultError
  rpc : Text → VaultError
  other : VaultError

-- What comes of the lookup: no slot or answer in time, an error, or messages.
pub data Lookup : Type 0 where
  late : Lookup
  failed : VaultError → Lookup
  found : List Message → Lookup

pub data Resolved : Type 0 where
  media : Message → Resolved
  unresolved : VaultError → Resolved

check_message : FileRecord → Message → Resolved
unfolding is_empty file_key extract_size
check_message rec msg =
    let actual_size = extract_size msg in
    if not msg.present
    then unresolved message_missing
    else if not msg.has_media
    then unresolved message_no_media
    else if not (is_empty rec.file_key) && not (text_eq (file_key msg) rec.file_key)
    then unresolved record_mismatch
    else if leb_ℤ actual_size (pos 0) || not (eqb_ℤ actual_size rec.size)
    then unresolved record_mismatch
    else media msg

check_lookup : FileRecord → Lookup → Resolved
unfolding check_message
check_lookup rec late = unresolved other
check_lookup rec (failed e) = unresolved e
check_lookup rec (found []) = unresolved message_missing
check_lookup rec (found (msg ∷ msgs)) = check_message rec msg

-- The flag says that the handler has an ingester.
unfoldable pub resolve_vault_media : Bool → Lookup → FileRecord → Resolved
unfolding check_lookup
resolve_vault_media has_ingester lookup rec =
    if has_ingester then check_lookup rec lookup else unresolved message_missing

unfoldable pub is_gone : Text → Bool
is_gone message =
    text_eq message (codes "MESSAGE_ID_INVALID") || text_eq message (codes "MESSAGE_DELETED")

unfoldable pub is_permanent_vault_error : VaultError → Bool
unfolding is_gone
is_permanent_vault_error message_missing = true
is_permanent_vault_error message_no_media = true
is_permanent_vault_error record_mismatch = true
is_permanent_vault_error (code_response message) = is_gone message
is_permanent_vault_error (rpc message) = is_gone message
is_permanent_vault_error other = false

-- A message that is served has the size of its record, which is positive, and its key, if any.
abbrev pub Matches : FileRecord → Message → Type 0
Matches rec msg =
    (extract_size msg ≡ rec.size)
    × (leb_ℤ rec.size (pos 0) ≡ false)
    × ((rec.file_key ≡ []) ⊎ (file_key msg ≡ rec.file_key))

-- A check that fails is no media.
passed :
    (b : Bool) (e : VaultError) (rest : Resolved) (msg : Message)
    → (if b then unresolved e else rest) ≡ media msg
    → (b ≡ false) × (rest ≡ media msg)
passed true e rest msg h = cc
passed false e rest msg h = (refl, h)

media-injective : (m msg : Message) → media m ≡ media msg → m ≡ msg
media-injective m msg h = cc

key_match :
    (key own : Text)
    → (not (is_empty key) && not (text_eq own key)) ≡ false
    → (key ≡ []) ⊎ (own ≡ key)
unfolding is_empty
key_match [] own h = inl refl
key_match (c ∷ key) own h = inr ((text_eq_iff own (c ∷ key)).0 (ground arith))

size_match :
    (a size : ℤ)
    → (leb_ℤ a (pos 0) || not (eqb_ℤ a size)) ≡ false
    → (a ≡ size) × (leb_ℤ size (pos 0) ≡ false)
size_match a size h =
    let e : a ≡ size = (eqb_ℤ_iff a size).0 (ground arith) in
    (e, subst (λ z. leb_ℤ z (pos 0) ≡ false) e (ground arith))

check_message-Matches :
    (rec : FileRecord) (m msg : Message) → check_message rec m ≡ media msg → Matches rec msg
unfolding check_message
check_message-Matches rec m msg h =
    let right = not (is_empty rec.file_key) && not (text_eq (file_key m) rec.file_key) in
    let sized = leb_ℤ (extract_size m) (pos 0) || not (eqb_ℤ (extract_size m) rec.size) in
    let r4 = if sized then unresolved record_mismatch else media m in
    let r3 = if right then unresolved record_mismatch else r4 in
    let r2 = if not m.has_media then unresolved message_no_media else r3 in
    let h1 = passed (not m.present) message_missing r2 msg h in
    let h2 = passed (not m.has_media) message_no_media r3 msg h1.1 in
    let h3 = passed right record_mismatch r4 msg h2.1 in
    let h4 = passed sized record_mismatch (media m) msg h3.1 in
    let s = size_match (extract_size m) rec.size h4.0 in
    subst (λ x. Matches rec x) (media-injective m msg h4.1)
      (s.0, s.1, key_match rec.file_key (file_key m) h3.0)

-- Media that is served has the size of its record, which is positive, and the key of its record,
-- if that has one.
pub resolve_vault_media-Matches :
    (has_ingester : Bool) (lookup : Lookup) (rec : FileRecord) (msg : Message)
    → resolve_vault_media has_ingester lookup rec ≡ media msg
    → Matches rec msg
unfolding resolve_vault_media check_lookup
resolve_vault_media-Matches false lookup rec msg h = cc
resolve_vault_media-Matches true late rec msg h = cc
resolve_vault_media-Matches true (failed e) rec msg h = cc
resolve_vault_media-Matches true (found []) rec msg h = cc
resolve_vault_media-Matches true (found (m ∷ ms)) rec msg h = check_message-Matches rec m msg h

all_pass :
    (a b c d : Bool) (msg : Message)
    → a ≡ false
    → b ≡ false
    → c ≡ false
    → d ≡ false
    → (if a
        then unresolved message_missing
        else if b
        then unresolved message_no_media
        else if c
        then unresolved record_mismatch
        else if d
        then unresolved record_mismatch
        else media msg)
      ≡ media msg
all_pass a b c d msg ha hb hc hd = rw (ha, hb, hc, hd)

own_key :
    (rec : FileRecord) (msg : Message)
    → Matches rec msg
    → (not (is_empty rec.file_key) && not (text_eq (file_key msg) rec.file_key)) ≡ false
unfolding is_empty
own_key rec msg h = elim h.2 [
  | inl e ↦ rw e
  | inr e ↦ rw ((text_eq_iff (file_key msg) rec.file_key).1 e) (ground arith)
]

-- Every message of the vault that is there, with media of the record's size and key, is served.
pub resolve_vault_media-media :
    (rec : FileRecord) (msg : Message) (more : List Message)
    → msg.present ≡ true
    → msg.has_media ≡ true
    → Matches rec msg
    → resolve_vault_media true (found (msg ∷ more)) rec ≡ media msg
unfolding resolve_vault_media check_lookup check_message
resolve_vault_media-media rec msg more there has matches =
    all_pass (not msg.present) (not msg.has_media)
      (not (is_empty rec.file_key) && not (text_eq (file_key msg) rec.file_key))
      (leb_ℤ (extract_size msg) (pos 0) || not (eqb_ℤ (extract_size msg) rec.size)) msg
      (ap not there) (ap not has) (own_key rec msg matches)
      (rw (matches.0, matches.1, (eqb_ℤ_iff rec.size rec.size).1 refl))
