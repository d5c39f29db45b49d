-- ===== src/Core/Env.antt =====
-- src/core/env.c: environment variables, and where the program keeps its data. The environment is a
-- function of the name; an operating system's other limits on a name are not seen.
use usb_sentinel.Prelude.{
  ℕ, Bool, not, [], Option, none, some, CString, codes, leb, ◌==◌, if◌then◌else◌, length, str_eq,
}
use usb_sentinel.Core.Path.{Host, windows, posix, path_join}
use usb_sentinel.Status.{Status, ok, invalid_arg, not_found, no_memory, internal, is_ok}

-- The systems that the sources tell apart here
pub data System : Type 0 where
  win32 apple xdg : System

abbrev pub host_of : System → Host
host_of win32 = windows
host_of apple = posix
host_of xdg = posix

abbrev pub Environment : Type 0
Environment = CString → Option CString

-- What is found under a name and is not empty; `usbs_getenv` behind the test of its arguments.
unfoldable pub value_for : Option CString → ℕ → Status × Option CString
value_for none size = (not_found, some [])
value_for (some value) size =
    if length value == 0
    then (not_found, some [])
    else if leb size (length value)
    then (no_memory, some [])
    else (ok, some value)

-- `usbs_getenv`, with the new content of `out`
unfoldable pub getenv : Environment → Option CString → ℕ → Status × Option CString
getenv env none size = (invalid_arg, none)
getenv env (some name) size = if size == 0 then (invalid_arg, none) else value_for (env name) size

-- NULL is the empty text.
abbrev pub text_of : Option CString → CString
text_of none = []
text_of (some value) = value

-- `usbs_setenv` by setenv and unsetenv; the last argument says whether the system takes a value that is not empty. An empty value
-- removes the variable.
unfoldable pub setenv : Environment → Option CString → Option CString → Bool → Status × Environment
setenv env none value taken = (invalid_arg, env)
setenv env (some name) value taken =
    let text = text_of value in
    if length text == 0
    then (ok, λ n. if str_eq n name then none else env n)
    else if not taken
    then (internal, env)
    else (ok, λ n. if str_eq n name then some text else env n)

-- A join below a directory that another call has answered
unfoldable pub join_under : Host → ℕ → Status × Option CString → CString → Status × Option CString
join_under host size (status, base) leaf =
    if not (is_ok status) then (status, some []) else path_join host size base (some leaf)

-- `usbs_user_data_dir`
unfoldable pub user_data_dir : System → Environment → ℕ → Status × Option CString
user_data_dir win32 env size =
    let base = getenv env (some (codes "LOCALAPPDATA")) 512 in
    if size == 0
    then (invalid_arg, none)
    else if not (is_ok base.0)
    then (not_found, some [])
    else path_join windows size base.1 (some (codes "USBSentinel"))
user_data_dir apple env size =
    let base = getenv env (some (codes "HOME")) 512 in
    if size == 0
    then (invalid_arg, none)
    else if not (is_ok base.0)
    then (not_found, some [])
    else join_under posix size
        (path_join posix 512 base.1 (some (codes "Library/Application Support")))
        (codes "USBSentinel")
user_data_dir xdg env size =
    let data_home = getenv env (some (codes "XDG_DATA_HOME")) 512 in
    let home = getenv env (some (codes "HOME")) 512 in
    if size == 0
    then (invalid_arg, none)
    else if is_ok data_home.0
    then path_join posix size data_home.1 (some (codes "usb-sentinel"))
    else if not (is_ok home.0)
    then (not_found, some [])
    else join_under posix size (path_join posix 512 home.1 (some (codes ".local/share")))
        (codes "usb-sentinel")
