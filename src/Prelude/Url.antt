-- ===== src/Prelude/Url.antt =====
-- `urllib.parse.urlsplit` and `urlparse` of Python's library, as far as the program reads their
-- results. The check of a host in brackets and of Unicode in a netloc is given: `usable`.
use Prim.Native.Nat.{ℕ}
use mathlib.Core.Bool.{Bool, not, ◌&&◌, ◌||◌}
use mathlib.Core.List.{List, [], ◌∷◌}
use mathlib.Core.Option.{Option, none, some}
use wizard_w.Prelude.Tests.{nat_eq, ◌==◌, leb, if◌then◌else◌}
use wizard_w.Prelude.Lists.{all, contains, filter}
use wizard_w.Prelude.Text.{Text, codes, text_eq, lower}

-- The text before and after the first place where a test holds; the second starts with that place.
unfoldable pub break : (ℕ → Bool) → Text → Text × Text
break stop [] = ([], [])
break stop (c ∷ s) =
    let (before, rest) = break stop s in if stop c then ([], c ∷ s) else (c ∷ before, rest)

abbrev pub is_letter : ℕ → Bool
is_letter c = (leb b'a' c && leb c b'z') || (leb b'A' c && leb c b'Z')

abbrev pub is_digit : ℕ → Bool
is_digit c = leb b'0' c && leb c b'9'

abbrev pub is_alphanumeric : ℕ → Bool
is_alphanumeric c = is_letter c || is_digit c

abbrev pub is_scheme_char : ℕ → Bool
is_scheme_char c = is_alphanumeric c || c == b'+' || c == b'-' || c == b'.'

-- Control characters and spaces in front.
unfoldable pub lstrip_controls : Text → Text
lstrip_controls [] = []
lstrip_controls (c ∷ s) = let rest = lstrip_controls s in if leb c 32 then rest else c ∷ s

pub record SplitUrl : Type 0 where
  pub scheme : Text
  pub netloc : Text
  pub path : Text

-- A scheme is what stands before the first colon, if it is made of letters, digits and `+-.` and
-- begins with a letter.
unfoldable pub scheme_of : Text → Text → Text → Text × Text
unfolding lower
scheme_of url (c ∷ before) (colon ∷ rest) =
    if is_letter c && all is_scheme_char (c ∷ before) then (lower (c ∷ before), rest) else ([], url)
scheme_of url _ _ = ([], url)

unfoldable pub split_scheme : Text → Text × Text
unfolding break scheme_of
split_scheme url = let (before, rest) = break (λ c. c == b':') url in scheme_of url before rest

-- The netloc after two slashes, and the rest.
unfoldable pub split_netloc : Text → Text × Text
unfolding break
split_netloc (a ∷ b ∷ s) =
    if a == b'/' && b == b'/'
    then break (λ c. c == b'/' || c == b'?' || c == b'#') s
    else ([], a ∷ b ∷ s)
split_netloc s = ([], s)

-- `urlsplit`; `none` is a ValueError.
unfoldable pub urlsplit : (Text → Bool) → Text → Option SplitUrl
unfolding lstrip_controls split_scheme split_netloc break
urlsplit usable url =
    let cleaned = filter (λ c. not (c == 9 || c == 10 || c == 13)) (lstrip_controls url) in
    let (scheme, after_scheme) = split_scheme cleaned in
    let (netloc, rest) = split_netloc after_scheme in
    if usable netloc
    then some (record {
      scheme = scheme;
      netloc = netloc;
      path = (break (λ c. c == b'#' || c == b'?') rest).0;
    })
    else none

-- The parameters of the last segment cut off, as `urlparse` does for http and https.
unfoldable pub without_params : Text → Text
unfolding break
without_params [] = []
without_params (c ∷ s) =
    if contains b'/' (c ∷ s) then c ∷ without_params s else (break (λ d. d == b';') (c ∷ s)).0

-- `uses_params` of the library.
unfoldable pub uses_params : List Text
uses_params =
    []
    ∷ codes "ftp"
    ∷ codes "hdl"
    ∷ codes "prospero"
    ∷ codes "http"
    ∷ codes "imap"
    ∷ codes "https"
    ∷ codes "shttp"
    ∷ codes "rtsp"
    ∷ codes "rtsps"
    ∷ codes "rtspu"
    ∷ codes "sip"
    ∷ codes "sips"
    ∷ codes "mms"
    ∷ codes "sftp"
    ∷ codes "tel"
    ∷ []

-- `urlparse(url).netloc` and `.path`
unfoldable pub urlparse : (Text → Bool) → Text → Option (Text × Text)
unfolding urlsplit without_params uses_params
urlparse usable url = elim (urlsplit usable url) [
  | none ↦ none
  | some u ↦
      some (u.netloc, if contains u.scheme uses_params then without_params u.path else u.path)
]
