-- ===== src/Tgutil/Media.antt =====
-- internal/tgutil/util.go: what the bot reads off a Telegram message. A message is a value of the
-- gogram library; here it is what the library's accessors return for it.
use thunder_go.Prelude.{
  Bool, true, not, ◌&&◌, ◌||◌, Option, none, some, List, [], ◌∷◌, ◌++◌, length, leb, if◌then◌else◌,
}
use thunder_go.Prelude.Text.{
  Text, codes, text_eq, is_empty, trim_space, to_lower, cut, is_lower, is_digit,
}
use thunder_go.Prelude.Text.Decimal.{print_int}
use thunder_go.Prelude.Int.{ℤ, pos, ltb_ℤ}

pub data Attribute : Type 0 where
  filename : Text → Attribute
  other : Attribute

pub data PhotoSize : Type 0 where
  sized : ℤ → PhotoSize
  progressive : List ℤ → PhotoSize
  unsized : PhotoSize

pub record Document : Type 0 where
  pub id : ℤ
  pub mime_type : Text
  pub size : ℤ
  pub dc_id : ℤ
  pub attributes : List Attribute

pub record Photo : Type 0 where
  pub sizes : List PhotoSize
  pub dc_id : ℤ
  -- "photo:%x:%x" of the identifier and the access hash
  pub key : Text

pub record Message : Type 0 where
  pub id : ℤ
  -- `msg.Message != nil`
  pub present : Bool
  pub is_media : Bool
  -- `msg.Media() != nil`
  pub has_media : Bool
  pub document : Option Document
  pub photo : Option Photo
  -- `msg.MediaType()`
  pub media_type : Text
  -- whether `msg.Video()` and its like are not nil
  pub video : Bool
  pub audio : Bool
  pub voice : Bool
  pub animation : Bool
  pub sticker : Bool
  -- `msg.ChatID()`
  pub chat_id : ℤ
  -- telegram.PackBotFileID of the media
  pub bot_file_id : Text

-- The name of the first file-name attribute that is not empty.
pub attribute_name : List Attribute → Option Text
attribute_name [] = none
attribute_name (filename s ∷ rest) = if is_empty s then attribute_name rest else some s
attribute_name (other ∷ rest) = attribute_name rest

pub data Choice {ℓ} (A : Type ℓ) : Type ℓ where
  when : Text → A → Choice A

abbrev choose {ℓ} : {A : Type ℓ} → List (Choice A) → Text → A → A
choose [] t d = d
choose (when s a ∷ cs) t d = if text_eq t s then a else choose cs t d

abbrev known_types : List (Choice Text)
known_types =
    when (codes "video/mp4") (codes "mp4")
    ∷ when (codes "video/webm") (codes "webm")
    ∷ when (codes "video/x-matroska") (codes "mkv")
    ∷ when (codes "audio/mpeg") (codes "mp3")
    ∷ when (codes "audio/mp3") (codes "mp3")
    ∷ when (codes "audio/ogg") (codes "ogg")
    ∷ when (codes "audio/mp4") (codes "m4a")
    ∷ when (codes "image/jpeg") (codes "jpg")
    ∷ when (codes "image/png") (codes "png")
    ∷ when (codes "image/webp") (codes "webp")
    ∷ when (codes "image/gif") (codes "gif")
    ∷ when (codes "application/pdf") (codes "pdf")
    ∷ when (codes "application/zip") (codes "zip")
    ∷ []

pub all_alphanumeric : Text → Bool
unfolding is_lower is_digit
all_alphanumeric [] = true
all_alphanumeric (c ∷ s) = (is_lower c || is_digit c) && all_alphanumeric s

-- The subtype serves if it is short and alphanumeric, and the type before the slash is not empty.
subtype : Option (Text × Text) → Text
unfolding all_alphanumeric is_empty
subtype none = []
subtype (some (a, b)) =
    if not (is_empty a) && (all_alphanumeric b && leb (length b) 6) then b else []

pub mime_to_ext : Text → Text
unfolding subtype
mime_to_ext mime = let m = to_lower (trim_space mime) in choose known_types m (subtype (cut b'/' m))

synthesize_from_mime : Text → ℤ → Text
synthesize_from_mime mime id =
    let ext = mime_to_ext mime in
    if is_empty ext then [] else codes "file_" ++ (print_int id ++ (b'.' ∷ ext))

abbrev named : Text → Option Text
named s = some s

by_media_type : Text → Option Text
by_media_type t =
    choose
      (when (codes "video") (named (codes "video.mp4"))
        ∷ when (codes "audio") (named (codes "audio.mp3"))
        ∷ when (codes "voice") (named (codes "voice.ogg"))
        ∷ when (codes "animation") (named (codes "animation.mp4"))
        ∷ when (codes "sticker") (named (codes "sticker.webp"))
        ∷ when (codes "document") (named (codes "file.bin"))
        ∷ [])
      t none

or_else {ℓ} : {A : Type ℓ} → Option A → Option A → Option A
or_else (some a) b = some a
or_else none b = b

document_name : Option Document → Option Text
document_name none = none
document_name (some d) =
    let made = synthesize_from_mime d.mime_type d.id in
    or_else (attribute_name d.attributes) (if is_empty made then none else some made)

photo_name : Option Photo → Option Text
photo_name none = none
photo_name (some p) = some (codes "photo.jpg")

-- `none` is the result ("", false).
unfoldable pub extract_file_name : Message → Option Text
unfolding document_name photo_name or_else by_media_type synthesize_from_mime mime_to_ext
extract_file_name m =
    if m.present && m.is_media
    then or_else (document_name m.document)
        (or_else (photo_name m.photo) (by_media_type m.media_type))
    else none

abbrev octet_stream : Text
octet_stream = codes "application/octet-stream"

document_mime : Option Document → Text
unfolding is_empty
document_mime none = []
document_mime (some d) = d.mime_type

unfoldable pub extract_mime : Message → Text
unfolding document_mime is_empty
extract_mime m =
    if not m.is_media
    then octet_stream
    else if not (is_empty (document_mime m.document))
    then document_mime m.document
    else elim m.photo [
      | some p ↦ codes "image/jpeg"
      | none ↦
          choose
            (when (codes "video") (codes "video/mp4")
              ∷ when (codes "audio") (codes "audio/mpeg")
              ∷ when (codes "voice") (codes "audio/ogg")
              ∷ when (codes "animation") (codes "video/mp4")
              ∷ when (codes "sticker") (codes "image/webp")
              ∷ [])
            m.media_type octet_stream
    ]

last_size : List ℤ → Option ℤ
last_size [] = none
last_size (n ∷ []) = some n
last_size (n ∷ m ∷ ns) = last_size (m ∷ ns)

pub size_of : PhotoSize → Option ℤ
unfolding last_size
size_of (sized n) = some n
size_of (progressive ns) = last_size ns
size_of unsized = none

larger : ℤ → Option ℤ → ℤ
larger best none = best
larger best (some n) = if ltb_ℤ best n then n else best

max_from : ℤ → List PhotoSize → ℤ
unfolding larger size_of
max_from best [] = best
max_from best (s ∷ ss) = max_from (larger best (size_of s)) ss

pub max_photo_size : List PhotoSize → ℤ
unfolding max_from
max_photo_size ss = max_from (pos 0) ss

unfoldable pub extract_size : Message → ℤ
unfolding max_photo_size
extract_size m = if not m.is_media then pos 0 else elim m.document [
  | some d ↦ d.size
  | none ↦ elim m.photo [ some p ↦ max_photo_size p.sizes | none ↦ pos 0 ]
]

unfoldable pub extract_dc_id : Message → ℤ
extract_dc_id m = if not m.is_media then pos 0 else elim m.document [
  | some d ↦ d.dc_id
  | none ↦ elim m.photo [ some p ↦ p.dc_id | none ↦ pos 0 ]
]

-- The stable key of a file, or "".
unfoldable pub file_key : Message → Text
unfolding is_empty
file_key m =
    if not m.is_media || not m.has_media
    then []
    else if not (is_empty m.bot_file_id)
    then m.bot_file_id
    else elim m.photo [ some p ↦ p.key | none ↦ [] ]

unfoldable pub media_type : Message → Text
media_type m = elim m.photo [
  | some p ↦ codes "photo"
  | none ↦
      if m.video
      then codes "video"
      else if m.audio
      then codes "audio"
      else if m.voice
      then codes "voice"
      else if m.animation
      then codes "animation"
      else if m.sticker
      then codes "sticker"
      else codes "document"
]
