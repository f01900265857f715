-- ===== src/FileServer/Options.antt =====
-- hw2/httpserver.c: the options of main.
use cs162hw.Base.{ℤ, pos, Bool, true, false, Option, none, some, List, [], ◌∷◌, if◌then◌else◌}
use cs162hw.Base.Text.{Text, codes, str_eq}
use cs162hw.Url.{until, behind}
use cs162hw.Http.Number.{strtol, to_int}

-- The global configuration, and whether the handler is that of the proxy.
pub record Config : Type 0 where
  pub server_port : ℤ
  pub server_files_directory : Text
  pub server_proxy_hostname : Text
  pub server_proxy_port : ℤ
  pub is_proxy : Bool
  -- Whether the directory is memory of malloc.
  pub is_malloced : Bool

-- The defaults, given what getcwd writes.
unfoldable pub defaults : Text → Config
defaults cwd = record {
  server_port = pos 8000;
  server_files_directory = cwd;
  server_proxy_hostname = codes "inst.eecs.berkeley.edu";
  server_proxy_port = pos 80;
  is_proxy = false;
  is_malloced = true;
}

unfoldable pub atoi : Text → ℤ
atoi s = to_int (strtol s).0

-- A target of the proxy: a host, and behind a colon a port.
unfoldable pub set_proxy : Config → Text → Config
set_proxy c proxy_target = record c {
  is_proxy = true;
  server_proxy_hostname = until b':' proxy_target;
  server_proxy_port = elim (behind b':' proxy_target) [ none ↦ pos 80 | some port ↦ atoi port ];
}

-- One option with its argument; `none` for an option that is not known, and for a second --files,
-- which hands an argument of main to free.
unfoldable pub set_option : Config → Text → Text → Option Config
set_option c name value =
    if str_eq name (codes "--files")
    then (if c.is_malloced
        then some
            (record c { is_proxy = false; server_files_directory = value; is_malloced = false })
        else none)
    else if str_eq name (codes "--proxy")
    then some (set_proxy c value)
    else if str_eq name (codes "--port")
    then some (record c { server_port = atoi value })
    else none

-- The loop over the arguments; `none` where the process ends, by exit_with_usage or that call of free. Each option takes
-- an argument, and one at the end that has none ends the process too.
unfoldable pub read_options : Config → List Text → Option Config
read_options c [] = some c
read_options c (name ∷ []) = none
read_options c (name ∷ value ∷ args) = elim (set_option c name value) [
  | none ↦ none
  | some c' ↦ read_options c' args
]
