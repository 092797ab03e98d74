-- ===== src/Containers/CertificateFiles.antt =====
-- The readers of certificates of src/common/utils.py. `environ` and `file` are the process's
-- environment and the reading of a file, `encode` is `str.encode`; bytes are texts here.
use browseterm_server_local.Prelude.{String, ◌<>◌, ◌==◌, Bool, Option, none, some, if◌then◌else◌}
use browseterm_server_local.Python.Error.{file_not_found_error, Reply, raised}

module _ (environ : String → Option String) (encode : String → Reply String)
    (exists : String → Bool) (file : String → Reply String) where
  -- The file is read where the variable is not set: an empty variable counts as set.
  unfoldable pub read_certs : (env_var_key path : String) → Reply String
  read_certs env_var_key path = elim (environ env_var_key) [ none ↦ file path | some s ↦ encode s ]

  unfoldable pub read_cert_from_env_var : (env_var_key : String) → Reply String
  read_cert_from_env_var env_var_key = elim (environ env_var_key) [
    | none ↦
        raised
          (file_not_found_error ("Certificate not found in environment variable " <> env_var_key))
    | some s ↦
        if s == ""
        then raised
            (file_not_found_error ("Certificate not found in environment variable " <> env_var_key))
        else encode s
  ]

  unfoldable pub read_cert_from_file : (file_path : String) → Reply String
  read_cert_from_file file_path =
      if exists file_path
      then file file_path
      else raised (file_not_found_error ("Certificate file not found at " <> file_path))
