-- ===== src/Proxy/Device/Mock.antt =====
-- Two small kernels, for runs of the proxy: every call succeeds, and the world counts the calls that
-- change something.
use adbshare.Base.{
  ℕ, ◌+◌, true, false, some, [], ◌∷◌, length, list_eq, ℕ_eq, ◌==◌, if◌then◌else◌, take,
}
use adbshare.Proxy.Device.{Libc, CStat, done, fails, Metadata}

abbrev pub stat_7 : CStat
stat_7 = record {
  st_mode = 33188;
  st_size = 7;
  st_mtime = 1700000000;
  st_atime = 1700000001;
  st_ctime = 1700000002;
  st_uid = 2000;
  st_gid = 1015;
  st_nlink = 1;
  st_blksize = 4096;
  st_blocks = 8;
}

abbrev plain_file : Metadata
plain_file = record { is_file = true; is_dir = false; len = 7; dev = 1; ino = 2 }

-- A kernel whose every directory holds `.`, `a`, `b` and `c`.
abbrev pub quiet : Libc
quiet = record {
  World = ℕ;
  open_call = λ path flags mode w. (done (10 + w), w + 1);
  close_call = λ fd w. (done tt, w + 1);
  pread = λ fd len offset w. (done (take len (97 ∷ 98 ∷ 99 ∷ [])), w);
  pwrite = λ fd payload offset w. (done (length payload), w + 1);
  stat_call = λ path w. (done stat_7, w);
  lstat_call = λ path w. (done stat_7, w);
  fstat_call = λ fd w. (done stat_7, w);
  mkdir_call = λ path mode w. (done tt, w + 1);
  unlink_call = λ path w. (done tt, w + 1);
  rmdir_call = λ path w. (done tt, w + 1);
  rename_call = λ src dst w. (done tt, w + 1);
  truncate_call = λ path size w. (done tt, w + 1);
  realpath_call = λ path w. (done path, w);
  readlink_call = λ path size w. (done path, w);
  symlink_call = λ target link w. (done tt, w + 1);
  utimes_call = λ path atime mtime w. (done tt, w + 1);
  statvfs_call = λ path w. (done (record { f_bavail = 5; f_blocks = 9; f_bsize = 4096 }), w);
  names_in = λ path w. (done ((b'.' ∷ []) ∷ (b'a' ∷ []) ∷ (b'b' ∷ []) ∷ (b'c' ∷ []) ∷ []), w);
  open_source = λ path w. (done 3, w + 1);
  open_directory = λ path w. (done 4, w + 1);
  openat_new = λ dir name w. (done 5, w + 1);
  metadata = λ fd w. (done plain_file, w);
  copy_bytes = λ src dst n w. (done n, w + 1);
  sync_all = λ fd w. (done tt, w);
  fstatat = λ dir name w. (done plain_file, w);
  unlinkat = λ dir name w. (done tt, w + 1);
  file_name = λ path. some path;
  parent = λ path. path;
  strerror = λ errno. [];
}

-- The same, but `lstat` does not find `/d/a`.
abbrev pub partial : Libc
partial = record quiet {
  lstat_call =
      λ path w. (if path == (b'/' ∷ b'd' ∷ b'/' ∷ b'a' ∷ []) then fails 2 else done stat_7, w);
}
