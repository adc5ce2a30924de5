-- ===== src/Utils/Mime.antt =====
-- `ext`, `mime_from_ext`, `mime_from_type`, `mime` and `is_bin` of utils.c, over its table.
pub mod Laws
use stros.Prelude.{
  ℕ, Bool, true, false, List, [], ◌∷◌, ◌==◌, if◌then◌else◌, Option, none, some, Run, ok, fault,
  ◌>>=◌,
}
use stros.CString.{CString, codes, iequ, strstr, strsep_all, contains}
use stros.Utils.Trim.{trim}

-- An entry of an extension list. The fallback of `mime_from_ext` holds the address of the function
-- `ext`, where a string is meant.
pub data Ext : Type 0 where
  name : CString → Ext
  code_address : Ext

-- `mime_t`; the type of the last row of the table is NULL.
pub record Mime : Type 0 where
  pub type : Option CString
  pub exts : List Ext
  pub bin : Bool

row : CString → CString → Bool → Mime
row type e bin = record { type = some type; exts = name e ∷ []; bin = bin }

row2 : CString → CString → CString → Bool → Mime
row2 type e f bin = record { type = some type; exts = name e ∷ name f ∷ []; bin = bin }

-- `_mimes`, less the row that ends it.
unfoldable pub mimes : List Mime
unfolding row row2
mimes =
    row (codes "image/bmp") (codes "bmp") true
    ∷ row2 (codes "image/jpeg") (codes "jpg") (codes "jpeg") true
    ∷ row (codes "text/css") (codes "css") false
    ∷ row (codes "text/csv") (codes "csv") false
    ∷ row (codes "application/pdf") (codes "pdf") true
    ∷ row (codes "image/gif") (codes "gif") true
    ∷ row2 (codes "text/html") (codes "html") (codes "htm") false
    ∷ row (codes "application/json") (codes "json") false
    ∷ row (codes "application/javascript") (codes "js") false
    ∷ row (codes "image/png") (codes "png") true
    ∷ row (codes "image/x-portable-pixmap") (codes "ppm") true
    ∷ row (codes "application/x-rar-compressed") (codes "rar") true
    ∷ row (codes "image/tiff") (codes "tiff") true
    ∷ row (codes "application/x-tar") (codes "tar") true
    ∷ row (codes "text/plain") (codes "txt") false
    ∷ row (codes "application/x-font-ttf") (codes "ttf") true
    ∷ row (codes "application/xhtml+xml") (codes "xhtml") false
    ∷ row (codes "application/xml") (codes "xml") false
    ∷ row (codes "application/zip") (codes "zip") true
    ∷ row (codes "image/svg+xml") (codes "svg") false
    ∷ row (codes "application/vnd.ms-fontobject") (codes "eot") true
    ∷ row2 (codes "application/x-font-woff") (codes "woff") (codes "woff2") true
    ∷ row (codes "application/x-font-otf") (codes "otf") true
    ∷ row2 (codes "audio/mpeg") (codes "mp3") (codes "mpeg") true
    ∷ []

-- The inner loop of `mime_from_ext`.
unfoldable pub has_ext : CString → List Ext → Bool
has_ext ex [] = false
has_ext ex (name e ∷ es) = if iequ ex e then true else has_ext ex es
has_ext ex (code_address ∷ es) = has_ext ex es

-- What `mime_from_ext` returns when no row fits.
abbrev pub octet_stream : Mime
octet_stream = record {
  type = some (codes "application/octet-stream");
  exts = code_address ∷ [];
  bin = true;
}

unfoldable pub find_ext : CString → List Mime → Mime
unfolding has_ext
find_ext ex [] = octet_stream
find_ext ex (m ∷ ms) = if has_ext ex m.exts then m else find_ext ex ms

unfoldable pub mime_from_ext : CString → Mime
unfolding find_ext mimes
mime_from_ext ex = find_ext ex mimes

-- The test of a row of `mime_from_type`.
unfoldable pub names_type : CString → Option CString → Bool
names_type type none = false
names_type type (some t) = strstr type t

-- What `mime_from_type` returns when no row fits.
abbrev pub no_mime : Mime
no_mime = record { type = none; exts = []; bin = false }

unfoldable pub find_type : CString → List Mime → Mime
unfolding names_type
find_type type [] = no_mime
find_type type (m ∷ ms) = if names_type type m.type then m else find_type type ms

unfoldable pub mime_from_type : CString → Mime
unfolding find_type mimes
mime_from_type type = find_type type mimes

-- The loop of `ext` over the tokens: it stops behind the last, or at an empty one, where `str_cpy`
-- still points into the buffer and `free(str_cpy)` is undefined unless that token was the last.
unfoldable pub last_token : CString → List CString → Run CString
last_token ltoken [] = ok ltoken
last_token ltoken ([] ∷ []) = ok ltoken
last_token ltoken ([] ∷ t ∷ ts) = fault
last_token ltoken ((c ∷ t) ∷ ts) = last_token (c ∷ t) ts

-- `if (*file == '.') trim(str_cpy, '.');`
unfoldable pub trim_hidden : CString → Run CString
trim_hidden [] = ok []
trim_hidden (c ∷ s) = if c == b'.' then trim (c ∷ s) b'.' else ok (c ∷ s)

-- The extension, behind the test for NULL.
unfoldable pub ext_of : CString → Run CString
unfolding trim_hidden last_token
ext_of file =
    if contains file b'.'
    then (do str_cpy ← trim_hidden file; last_token [] (strsep_all (codes ".") [] str_cpy))
    else ok []

-- `ext(NULL)` is NULL.
unfoldable pub ext : Option CString → Run (Option CString)
unfolding ext_of
ext none = ok none
ext (some file) = do e ← ext_of file; ok (some e)

-- `mime_from_ext(ext(file))`; `strcasecmp(NULL, _)` is undefined.
unfoldable pub mime_of : Option CString → Run Mime
unfolding ext mime_from_ext
mime_of none = fault
mime_of (some file) = do e ← ext_of file; ok (mime_from_ext e)

unfoldable pub mime : Option CString → Run (Option CString)
unfolding mime_of
mime file = do m ← mime_of file; ok m.type

unfoldable pub is_bin : Option CString → Run Bool
unfolding mime_of
is_bin file = do m ← mime_of file; ok m.bin
