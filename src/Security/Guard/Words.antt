-- ===== src/Security/Guard/Words.antt =====
-- The words that the guard looks for: the constants of backend/src/core/security/code_guard.py.
use wizard_w.Prelude.{List, [], ◌∷◌, map}
use wizard_w.Prelude.Text.{Text, codes}

-- `BANNED_MODULES`
unfoldable pub banned_modules : List Text
banned_modules = map codes (
    "os" ∷ "sys" ∷ "subprocess" ∷ "shutil" ∷ "socket" ∷ "ctypes" ∷ "importlib" ∷ "imp" ∷ "pty"
    ∷ "signal" ∷ "multiprocessing" ∷ "threading" ∷ "asyncio" ∷ "pickle" ∷ "marshal" ∷ "shelve"
    ∷ "dill" ∷ "requests" ∷ "urllib" ∷ "urllib2" ∷ "urllib3" ∷ "http" ∷ "ftplib" ∷ "telnetlib"
    ∷ "smtplib" ∷ "paramiko" ∷ "webbrowser" ∷ "resource" ∷ "pwd" ∷ "grp" ∷ "tempfile" ∷ [])

-- `BANNED_CALLS`
unfoldable pub banned_calls : List Text
banned_calls = map codes (
    "eval" ∷ "exec" ∷ "compile" ∷ "__import__" ∷ "globals" ∷ "locals" ∷ "vars" ∷ "breakpoint"
    ∷ "memoryview" ∷ "exit" ∷ "quit" ∷ [])

-- `BANNED_NAMES`
unfoldable pub banned_names : List Text
banned_names = map codes ("__builtins__" ∷ "__loader__" ∷ "__spec__" ∷ "__debug__" ∷ [])

-- `REFLECTION_CALLS`
unfoldable pub reflection_calls : List Text
reflection_calls = map codes ("getattr" ∷ "setattr" ∷ "delattr" ∷ "hasattr" ∷ [])

-- `BANNED_ATTRIBUTES`
unfoldable pub banned_attributes : List Text
banned_attributes = map codes (
    "__subclasses__" ∷ "__bases__" ∷ "__base__" ∷ "__mro__" ∷ "__globals__" ∷ "__code__"
    ∷ "__closure__" ∷ "__builtins__" ∷ "__loader__" ∷ "__reduce__" ∷ "__reduce_ex__" ∷ "__self__"
    ∷ "__dict__" ∷ "__func__" ∷ "__wrapped__" ∷ "__getattribute__" ∷ "__init_subclass__" ∷ "system"
    ∷ "popen" ∷ "spawn" ∷ "fork" ∷ "execv" ∷ "execve" ∷ "kill" ∷ [])

-- `PATH_ARG_FUNCTIONS`
unfoldable pub path_arg_functions : List Text
path_arg_functions =
    map codes
      ("open" ∷ "read_csv" ∷ "read_parquet" ∷ "read_feather" ∷ "read_json" ∷ "read_excel" ∷ [])

-- `PATH_ARG_METHODS`
unfoldable pub path_arg_methods : List Text
path_arg_methods = map codes (
    "to_csv" ∷ "to_parquet" ∷ "to_feather" ∷ "to_json" ∷ "to_excel" ∷ "to_pickle" ∷ "savefig"
    ∷ "write_html" ∷ "write_image" ∷ "write_json" ∷ [])

-- The keywords that may name a path, in `_first_string_arg`
unfoldable pub path_keywords : List Text
path_keywords = map codes ("path_or_buf" ∷ "filepath_or_buffer" ∷ "fname" ∷ "file" ∷ "path" ∷ [])
