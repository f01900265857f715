-- ===== src/FileServer.antt =====
-- hw2/httpserver.c and hw2/libhttp.c: a server of files. What the operating system knows of the
-- files is a record of functions; the bytes that are sent are a text, and every write succeeds.
mod Libhttp
pub mod Answer
pub mod Get
pub mod Proxy
pub mod Options
mod Tests
unfoldable pub use Libhttp.*
use cs162hw.Base.{
  ℕ, suc, ◌+◌, ◌*◌, ◌≤◌, Bool, true, false, not, ◌&&◌, ◌||◌, Option, none, some, List, [], ◌∷◌,
  ◌++◌, length, drop, take, ℤ, pos, negsuc, ltb, leb, ◌==◌, if◌then◌else◌, ◌>>=◌,
}
use cs162hw.Base.Text.{Text, codes, str_eq, c_str}
use cs162hw.Url.{until, behind}
use cs162hw.Http.{crlf}
use cs162hw.Http.Number.{decimal, strtol, to_int}

-- concate, for a path of the server that is not empty.
unfoldable pub ends_with_slash : Text → Bool
ends_with_slash [] = false
ends_with_slash (b ∷ []) = b == b'/'
ends_with_slash (b ∷ c ∷ s) = ends_with_slash (c ∷ s)

unfoldable pub concate : Text → Text → Text
concate server_path client_path =
    if ends_with_slash server_path
    then server_path ++ drop 1 client_path
    else server_path ++ client_path

-- What stat tells: nothing, a directory, a regular file with its size, or something else.
pub data Stat : Type 0 where
  missing : Stat
  directory : Stat
  regular : ℕ → Stat
  other : Stat

-- stat, fopen with fgetc, and opendir with readdir; `none` is NULL.
pub record FileSystem : Type 0 where
  pub stat : Text → Stat
  pub read_file : Text → Option Text
  pub read_dir : Text → Option (List Text)

-- is_a_dir: -1, 0 or 1, and *file_size.
pub data Kind : Type 0 where
  nothing : Kind
  file : ℤ → Kind
  folder : Kind

unfoldable pub is_a_dir : Stat → Kind
is_a_dir missing = nothing
is_a_dir directory = folder
is_a_dir (regular size) = file (to_int (pos size))
is_a_dir other = nothing

abbrev pub index_html : Text
index_html = codes "/index.html"

-- What comes of a request: the bytes that are sent, which may be followed by the end of the process,
-- or a read through NULL.
pub data Served : Type 0 where
  sent : Text → Served
  died : Text → Served
  crashed : Served

-- `%d`
unfoldable pub print_int : ℤ → Text
print_int (pos n) = decimal n
print_int (negsuc n) = b'-' ∷ decimal (suc n)

-- One link of read_dir_print, as it is put together in `tmp`.
unfoldable pub row : Text → Text
row name =
    if str_eq name (codes "..")
    then codes "<p><a href=\""
      ++ (name ++ (codes "/\">" ++ (codes "Parent directory" ++ codes "</a></p>")))
    else codes "<p><a href=\"" ++ (name ++ (codes "\">" ++ (name ++ codes "</a></p>")))

-- The size of `tmp`.
abbrev pub row_size : Text → ℕ
row_size name = 2 * length name + 38

unfoldable pub rows : List Text → Text
rows [] = []
rows (name ∷ names) =
    let rest = rows names in if str_eq name (codes ".") then rest else row name ++ rest

-- read_dir_print behind what is sent already.
unfoldable pub read_dir_print : FileSystem → Text → Text → Served
read_dir_print fs path out =
    let begun = out ++ codes "<center><h1>links are:</h1><hr>" in
    elim (fs.read_dir path) [
      | none ↦ died begun
      | some names ↦ sent (begun ++ (rows names ++ codes "</center>"))
    ]

-- read_from_a_file_print behind what is sent already.
unfoldable pub read_from_a_file_print : FileSystem → Text → Text → Served
read_from_a_file_print fs path out = elim (fs.read_file path) [
  | none ↦ died out
  | some content ↦ sent (out ++ content)
]

-- The headers before a file.
unfoldable pub file_head : Text → ℤ → Text
file_head path file_size =
    start_response 200
    ++ (send_header (codes "Content-type") (get_mime_type path)
        ++ (send_header (codes "Content-length") (print_int file_size) ++ end_headers))

abbrev pub page_head : ℕ → Text
page_head status_code =
    start_response status_code
    ++ (send_header (codes "Content-type") (codes "text/html") ++ end_headers)

unfoldable pub not_found : Text
not_found =
    page_head 404 ++ codes "<center><h1>404 ERROR!</h1><hr><p>Nothing's here yet.</p></center>"

-- A directory: its index.html where has_a_index finds one, and otherwise the links.
unfoldable pub serve_folder : FileSystem → Text → Served
serve_folder fs path = elim (is_a_dir (fs.stat (concate path index_html))) [
  | file size ↦
      let updated = concate path index_html in
      read_from_a_file_print fs updated (file_head updated size)
  | folder ↦ read_dir_print fs path (page_head 200)
  | nothing ↦ read_dir_print fs path (page_head 200)
]

unfoldable pub serve_path : FileSystem → Text → Served
serve_path fs path = elim (is_a_dir (fs.stat path)) [
  | file size ↦ read_from_a_file_print fs path (file_head path size)
  | folder ↦ serve_folder fs path
  | nothing ↦ sent not_found
]

-- handle_files_request, which reads the fields of a request before it looks for NULL.
unfoldable pub handle_files_request : FileSystem → Text → List ℕ → Served
handle_files_request fs server_files_directory bytes = elim (request_parse bytes) [
  | none ↦ crashed
  | some request ↦
      if str_eq request.method (codes "GET")
      then serve_path fs (concate server_files_directory request.path)
      else sent []
]
