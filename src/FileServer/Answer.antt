-- ===== src/FileServer/Answer.antt =====
-- hw2/httpserver.c: what a GET is answered with.
use cs162hw.Base.{
  ℕ, ◌<◌, ◌^◌, ◌≡◌, ◌≢◌, ◌∙◌, refl, sym, ap, ◌⊎◌, inl, inr, some, true, List, [], ◌∷◌, ◌++◌, length,
  Bool-cases, subst, pos, append_assoc,
}
use cs162hw.Base.Text.{Text, codes, str_eq, str_eq_sound, str_eq_refl}
use cs162hw.Http.{crlf}
use cs162hw.Http.Number.{decimal, to_int, print_from}
use cs162hw.Http.Digits.{to_int-pos}
use cs162hw.FileServer.{
  get_response_message, start_response, send_header, get_mime_type, concate, Stat, missing,
  directory, regular, other, FileSystem, is_a_dir, index_html, Served, sent, print_int, row, rows,
  read_dir_print, read_from_a_file_print, file_head, not_found, serve_folder, serve_path, page_head,
}

-- What the answers rely on: a regular file can be read, has the size that stat tells, which fits
-- into an int, and a directory can be read.
pub record Readable (fs : FileSystem) : Type 0 where
  pub files :
      (p : Text) (n : ℕ)
      → fs.stat p ≡ regular n
      → (content : Text) × (fs.read_file p ≡ some content) × (length content ≡ n) × (n < 2 ^ 31)
  pub folders :
      (p : Text) → fs.stat p ≡ directory → (names : List Text) × (fs.read_dir p ≡ some names)

-- A file as it is sent.
abbrev pub file_answer : Text → Text → Text
file_answer path content =
    codes "HTTP/1.0 200 OK"
    ++ (crlf
        ++ (codes "Content-type: "
            ++ (get_mime_type path
                ++ (crlf
                    ++ (codes "Content-length: "
                        ++ (decimal (length content) ++ (crlf ++ (crlf ++ content))))))))

abbrev pub html_head : Text → Text
html_head status =
    codes "HTTP/1.0 " ++ (status ++ (crlf ++ (codes "Content-type: text/html" ++ (crlf ++ crlf))))

-- A paragraph with one link.
abbrev pub link : Text → Text → Text
link target shown =
    codes "<p><a href=\"" ++ (target ++ (codes "\">" ++ (shown ++ codes "</a></p>")))

-- The links of a listing, in the order of the names: none for the directory itself, and one with a
-- text of its own for the directory above it.
abbrev pub IsLinks : List Text → Text → Type 0
IsLinks [] out = out ≡ []
IsLinks (name ∷ names) out =
    (rest : Text) × IsLinks names rest
    × (((name ≡ codes ".") × (out ≡ rest))
        ⊎ ((name ≡ codes "..") × (out ≡ link (codes "../") (codes "Parent directory") ++ rest))
        ⊎ ((name ≢ codes ".") × (name ≢ codes "..") × (out ≡ link name name ++ rest)))

abbrev pub folder_answer : Text → Text
folder_answer links =
    html_head (codes "200 OK")
    ++ (codes "<center><h1>links are:</h1><hr>" ++ (links ++ codes "</center>"))

abbrev pub absent_answer : Text
absent_answer =
    html_head (codes "404 Not Found")
    ++ codes "<center><h1>404 ERROR!</h1><hr><p>Nothing's here yet.</p></center>"

-- The four answers for what a path of the server leads to.
abbrev pub IsFile : FileSystem → Text → Served → Type 0
IsFile fs p out =
    (content : Text) × (fs.stat p ≡ regular (length content))
    × (fs.read_file p ≡ some content)
    × (out ≡ sent (file_answer p content))

abbrev pub IsListing : FileSystem → Text → Served → Type 0
IsListing fs p out =
    (names : List Text) × ((n : ℕ) → fs.stat (concate p index_html) ≢ regular n)
    × (fs.read_dir p ≡ some names)
    × ((links : Text) × IsLinks names links × (out ≡ sent (folder_answer links)))

abbrev pub IsAnswer : FileSystem → Text → Served → Type 0
IsAnswer fs p out =
    IsFile fs p out
    ⊎ ((fs.stat p ≡ directory) × IsFile fs (concate p index_html) out)
    ⊎ ((fs.stat p ≡ directory) × IsListing fs p out)
    ⊎ ((fs.stat p ≢ directory) × ((n : ℕ) → fs.stat p ≢ regular n) × (out ≡ sent absent_answer))

head-eq : (p content : Text) → file_head p (pos (length content)) ++ content ≡ file_answer p content
unfolding file_head start_response send_header print_int get_response_message decimal print_from
head-eq p content = simp append_assoc

page-eq : page_head 200 ≡ html_head (codes "200 OK")
unfolding start_response send_header get_response_message decimal print_from
page-eq = refl

absent-eq : not_found ≡ absent_answer
unfolding not_found start_response send_header get_response_message decimal print_from
absent-eq = refl

rows-IsLinks : (names : List Text) → IsLinks names (rows names)
unfolding rows row
rows-IsLinks [] = refl
rows-IsLinks (name ∷ names) = (
  rows names,
  rows-IsLinks names,
  elim (Bool-cases (str_eq name (codes "."))) [
    | inl itself ↦ inl (str_eq_sound name (codes ".") itself, rw itself refl)
    | inr inside ↦
        let not_itself : name ≢ codes "." = λ same.
          let yes : str_eq name (codes ".") ≡ true =
            subst (λ x. str_eq x (codes ".") ≡ true) (sym same) (str_eq_refl (codes ".")) in
          cc in
        elim (Bool-cases (str_eq name (codes ".."))) [
          | inl above ↦
              let same = str_eq_sound name (codes "..") above in
              inr (inl (same, rw (inside, above) (rw same refl)))
          | inr below ↦
              let not_above : name ≢ codes ".." = λ same.
                let yes : str_eq name (codes "..") ≡ true =
                  subst (λ x. str_eq x (codes "..") ≡ true) (sym same) (str_eq_refl (codes "..")) in
                cc in
              inr (inr (not_itself, not_above, rw (inside, below) refl))
        ]
  ],
)

module _ (fs : FileSystem) (ok : Readable fs) where
  read-IsFile :
      (p : Text) (n : ℕ)
      → fs.stat p ≡ regular n
      → IsFile fs p (read_from_a_file_print fs p (file_head p (to_int (pos n))))
  unfolding read_from_a_file_print
  read-IsFile p n st =
      let (content, read, len, small) = ok.files p n st in
      (
        content,
        st ∙ ap regular (sym len),
        read,
        rw (read, read_from_a_file_print, to_int-pos n small, sym len)
            (ap sent (head-eq p content)),
      )

  read_dir-IsListing :
      (p : Text)
      → fs.stat p ≡ directory
      → ((n : ℕ) → fs.stat (concate p index_html) ≢ regular n)
      → IsListing fs p (read_dir_print fs p (page_head 200))
  unfolding read_dir_print
  read_dir-IsListing p st no_index =
      let (names, read) = ok.folders p st in
      (
        names,
        no_index,
        read,
        (rows names, rows-IsLinks names, rw (read, read_dir_print, page-eq) refl),
      )

  folder_file-eq :
      (p : Text) (n : ℕ)
      → fs.stat (concate p index_html) ≡ regular n
      → serve_folder fs p
        ≡ read_from_a_file_print fs
            (concate p index_html)
            (file_head (concate p index_html) (to_int (pos n)))
  unfolding serve_folder is_a_dir
  folder_file-eq p n eq = rw (eq, serve_folder) refl

  path_file-eq :
      (p : Text) (n : ℕ)
      → fs.stat p ≡ regular n
      → serve_path fs p ≡ read_from_a_file_print fs p (file_head p (to_int (pos n)))
  unfolding serve_path is_a_dir
  path_file-eq p n eq = rw (eq, serve_path) refl

  path_folder-eq : (p : Text) → fs.stat p ≡ directory → serve_path fs p ≡ serve_folder fs p
  unfolding serve_path is_a_dir
  path_folder-eq p eq = rw (eq, serve_path) refl

  serve_folder-IsAnswer : (p : Text) → fs.stat p ≡ directory → IsAnswer fs p (serve_folder fs p)
  serve_folder-IsAnswer p st = go (fs.stat (concate p index_html)) refl
    where
      listed :
          ((n : ℕ) → fs.stat (concate p index_html) ≢ regular n)
          → serve_folder fs p ≡ read_dir_print fs p (page_head 200)
          → IsAnswer fs p (serve_folder fs p)
      listed no_index eq = rw eq (inr (inr (inl (st, read_dir-IsListing p st no_index))))

      go : (s : Stat) → fs.stat (concate p index_html) ≡ s → IsAnswer fs p (serve_folder fs p)
      go (regular n) eq =
          rw (folder_file-eq p n eq) (inr (inl (st, read-IsFile (concate p index_html) n eq)))
      go missing eq =
          listed (λ n e. cc) (unfold serve_folder is_a_dir in rw (eq, serve_folder) refl)
      go directory eq =
          listed (λ n e. cc) (unfold serve_folder is_a_dir in rw (eq, serve_folder) refl)
      go other eq = listed (λ n e. cc) (unfold serve_folder is_a_dir in rw (eq, serve_folder) refl)

  pub serve_path-IsAnswer : (p : Text) → IsAnswer fs p (serve_path fs p)
  serve_path-IsAnswer p = go (fs.stat p) refl
    where
      absent :
          fs.stat p ≢ directory
          → ((n : ℕ) → fs.stat p ≢ regular n)
          → serve_path fs p ≡ sent not_found
          → IsAnswer fs p (serve_path fs p)
      absent no_folder no_file eq = inr (inr (inr (no_folder, no_file, eq ∙ ap sent absent-eq)))

      go : (s : Stat) → fs.stat p ≡ s → IsAnswer fs p (serve_path fs p)
      go (regular n) eq = rw (path_file-eq p n eq) (inl (read-IsFile p n eq))
      go directory eq = rw (path_folder-eq p eq) (serve_folder-IsAnswer p eq)
      go missing eq =
          absent (λ e. cc) (λ n e. cc) (unfold serve_path is_a_dir in rw (eq, serve_path) refl)
      go other eq =
          absent (λ e. cc) (λ n e. cc) (unfold serve_path is_a_dir in rw (eq, serve_path) refl)
