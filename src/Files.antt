-- ===== src/Files.antt =====
-- `tls_util_is_file` and `tls_util_file_load` of src/tls_util.c. The calls of APR on files are the
-- fields of `FileSystem`.
use mod_tls.Base.{
  ℕ, ◌-◌, ◌^◌, ◌≤◌, ◌≡◌, Bool, true, false, not, ◌||◌, Option, none, some, List, length, String,
  ltb, leb, Result, ok, fail, ◌>>=◌, ◌>>◌, check, einval, arith, >>=-eq-ok, check-eq-ok,
}

-- apr_finfo_t: `regular` is `filetype == APR_REG`.
pub record FileInfo : Type 0 where
  pub regular : Bool
  pub size : ℕ

pub record FileSystem : Type 0 where
  -- `apr_stat`
  pub stat : String → Result FileInfo
  -- `apr_file_open` for reading
  pub open_read : String → Result (Unit {0})
  -- `apr_file_read` of at most so many bytes
  pub read : String → ℕ → Result (List ℕ)

abbrev is_regular : Result FileInfo → Bool
is_regular (ok info) = info.regular
is_regular (fail e) = false

-- `none` is a NULL path.
unfoldable pub is_file : FileSystem → Option String → Bool
is_file fs none = false
is_file fs (some fpath) = is_regular (fs.stat fpath)

abbrev long_max : ℕ
long_max = 2 ^ 63 - 1

-- The bytes of the file, or the status that is returned.
unfoldable pub file_load : FileSystem → String → ℕ → ℕ → Result (List ℕ)
file_load fs fpath min_len max_len = do
  info ← fs.stat fpath
  check info.regular einval
  check (leb info.size long_max) einval
  check (not (ltb info.size min_len || ltb max_len info.size)) einval
  fs.open_read fpath
  fs.read fpath info.size

-- If `read` gives no more bytes than it is asked for, a file that is loaded is a plain file whose
-- size lies between the limits, and no more bytes are stored than the maximum, for which the buffer
-- was made.
pub file_load_bounds :
    (fs : FileSystem) (fpath : String) (min_len max_len : ℕ) (bytes : List ℕ)
    → ((p : String) (n : ℕ) (bs : List ℕ) → fs.read p n ≡ ok bs → length bs ≤ n)
    → file_load fs fpath min_len max_len ≡ ok bytes
    → (info : FileInfo) × (fs.stat fpath ≡ ok info)
      × (info.regular ≡ true)
      × (min_len ≤ info.size)
      × (info.size ≤ max_len)
      × (length bytes ≤ info.size)
unfolding file_load
file_load_bounds fs fpath min_len max_len bytes short e =
    let (info, found, e1) = >>=-eq-ok (fs.stat fpath) _ e in
    let (plain, e2) = check-eq-ok info.regular einval _ e1 in
    let (_, e3) = check-eq-ok (leb info.size long_max) einval _ e2 in
    let (range, e4) =
      check-eq-ok (not (ltb info.size min_len || ltb max_len info.size)) einval _ e3 in
    let (_, _, e5) = >>=-eq-ok (fs.open_read fpath) _ e4 in
    (info, found, plain, ground arith, ground arith, short fpath info.size bytes e5)
