-- ===== src/Protocol.antt =====
-- protocol/types.rs and protocol/constants.rs. Identifiers (`SessionId`, `FileId`, `Token`, an IP
-- address) are compared and never taken apart, so a number stands for each. A text is the list of
-- its bytes.
use localsend_rs.Base.{
  ◌↔◌, arith, ◌≡◌, ℕ, Bool, true, false, Option, List, [], ◌∷◌, ◌==◌, if◌then◌else◌, Map, ◌&&◌,
  ◌||◌, leb, map, ◌+◌, ◌*◌,
}

abbrev pub Text : Type 0
Text = List ℕ

abbrev pub FileId : Type 0
FileId = ℕ

abbrev pub SessionId : Type 0
SessionId = ℕ

abbrev pub Token : Type 0
Token = ℕ

abbrev pub IpAddr : Type 0
IpAddr = ℕ

-- A point in time and a length of time, in nanoseconds.
abbrev pub Instant : Type 0
Instant = ℕ

abbrev pub Duration : Type 0
Duration = ℕ

abbrev pub from_secs : ℕ → Duration
from_secs s = s * 1000000000

pub data Protocol : Type 0 where
  http https : Protocol

pub data DeviceType : Type 0 where
  mobile desktop web headless server : DeviceType

pub record DeviceInfo : Type 0 where
  pub alias : Text
  pub version : Text
  pub device_model : Option Text
  pub device_type : Option DeviceType
  pub fingerprint : Text
  pub port : ℕ
  pub protocol : Protocol
  pub download : Bool
  pub ip : Option IpAddr

pub record FileMetadataDetails : Type 0 where
  pub modified : Option Text
  pub accessed : Option Text

pub record FileMetadata : Type 0 where
  pub id : FileId
  pub file_name : Text
  pub size : ℕ
  pub file_type : Text
  pub sha256 : Option Text
  pub preview : Option Text
  pub metadata : Option FileMetadataDetails

pub record PrepareUploadRequest : Type 0 where
  pub info : DeviceInfo
  pub files : Map FileMetadata

pub record PrepareUploadResponse : Type 0 where
  pub session_id : SessionId
  pub files : Map Token

-- `str::eq` and `[u8]::eq`.
unfoldable pub text_eq : Text → Text → Bool
text_eq [] [] = true
text_eq (a ∷ s) (b ∷ t) = a == b && text_eq s t
text_eq _ _ = false

-- `str::is_empty`.
abbrev pub is_empty {ℓ} : {A : Type ℓ} → List A → Bool
is_empty [] = true
is_empty (x ∷ xs) = false

-- `to_ascii_lowercase` of one byte, and of a text.
abbrev pub ascii_lower : ℕ → ℕ
ascii_lower c = if leb b'A' c && leb c b'Z' then c + 32 else c

unfoldable pub eq_ignore_ascii_case : Text → Text → Bool
unfolding text_eq
eq_ignore_ascii_case s t = text_eq (map ascii_lower s) (map ascii_lower t)

pub text_eq_iff : (s t : Text) → (text_eq s t ≡ true) ↔ (s ≡ t)
unfolding text_eq
text_eq_iff [] [] = ground arith
text_eq_iff [] (b ∷ t) = ground arith
text_eq_iff (a ∷ s) [] = ground arith
text_eq_iff (a ∷ s) (b ∷ t) = ground (arith, text_eq_iff s t)

-- `trim().is_empty()`: the text is white space alone, of one, two or three bytes in UTF-8.
abbrev white_one : ℕ → Bool
white_one a = (leb 9 a && leb a 13) || a == 32

abbrev white_two : ℕ → ℕ → Bool
white_two a b = a == 0xc2 && (b == 0x85 || b == 0xa0)

abbrev white_three : ℕ → ℕ → ℕ → Bool
white_three a b c =
    (a == 0xe1 && b == 0x9a && c == 0x80)
    || (a == 0xe2 && b == 0x80 && (leb 0x80 c && leb c 0x8a || c == 0xa8 || c == 0xa9 || c == 0xaf))
    || (a == 0xe2 && b == 0x81 && c == 0x9f)
    || (a == 0xe3 && b == 0x80 && c == 0x80)

unfoldable pub is_blank : Text → Bool
is_blank [] = true
is_blank (a ∷ []) = white_one a
is_blank (a ∷ b ∷ []) = let rest = is_blank (b ∷ []) in if white_one a then rest else white_two a b
is_blank (a ∷ b ∷ c ∷ s) =
    let one = is_blank (b ∷ c ∷ s) in
    let two = is_blank (c ∷ s) in
    let three = is_blank s in
    if white_one a
    then one
    else if white_two a b
    then two
    else if white_three a b c
    then three
    else false
