-- ===== src/NullDevice/Operations.antt =====
-- src/nullDeviceHelper.cc: the operations, by the names that a filter can hold.
use helpers.Prelude.{ℕ}

pub data Operation : Type 0 where
  read : Operation
  write : Operation
  release : Operation
  flush : Operation
  fsync : Operation
  getattr : Operation
  access : Operation
  readdir : Operation
  readlink : Operation
  mknod : Operation
  mkdir : Operation
  unlink : Operation
  rmdir : Operation
  symlink : Operation
  rename : Operation
  link : Operation
  chmod : Operation
  chown : Operation
  truncate : Operation
  open_file : Operation
  getxattr : Operation
  setxattr : Operation
  removexattr : Operation
  listxattr : Operation

abbrev pub index : Operation → ℕ
index read = 0
index write = 1
index release = 2
index flush = 3
index fsync = 4
index getattr = 5
index access = 6
index readdir = 7
index readlink = 8
index mknod = 9
index mkdir = 10
index unlink = 11
index rmdir = 12
index symlink = 13
index rename = 14
index link = 15
index chmod = 16
index chown = 17
index truncate = 18
index open_file = 19
index getxattr = 20
index setxattr = 21
index removexattr = 22
index listxattr = 23
