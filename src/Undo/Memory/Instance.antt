-- ===== src/Undo/Memory/Instance.antt =====
-- The file system in memory meets all that is asked of the calls.
use ok_snap.Undo.Posix.{IsPosix, with_owner, with_perm}
use ok_snap.Undo.Memory.{memory, memory_view, mem_clone, mem_stat}
use ok_snap.Undo.Memory.Lawful
use ok_snap.Undo.Memory.Descriptors
use ok_snap.Base.{refl, arith}
use ok_snap.Undo.Memory.Lawful.{
  lchown_done, lstat_enoent, lstat_found, mkdir_failed, mkdir_made, symlink_made, symlink_empty,
  mkdir_empty,
}
use ok_snap.Undo.Memory.Descriptors.{
  close_call, open_read_none, open_read_some, open_read_unread, open_write_made, open_write_none,
  open_write_some, readlink_read, sendfile_end, sendfile_sent, stat_dir,
}

pub memory-IsPosix : IsPosix memory memory_view
unfolding mem_clone mem_stat
memory-IsPosix = record {
  lstat_found = Lawful.lstat_found;
  lstat_enoent = Lawful.lstat_enoent;
  stat_dir = λ m p h no_link. Descriptors.stat_dir m p h;
  stat_empty = λ m. refl;
  mkdir_empty = Lawful.mkdir_empty;
  readlink_read = Descriptors.readlink_read;
  apart_other = λ p q apart. apart;
  mkdir_call = Lawful.mkdir-Call;
  mkdir_made = Lawful.mkdir_made;
  mkdir_failed = Lawful.mkdir_failed;
  rmdir_call = Lawful.remove-Call;
  rmdir_gone = Lawful.remove_gone;
  unlink_call = Lawful.remove-Call;
  unlink_gone = Lawful.remove_gone;
  symlink_call = Lawful.symlink-Call;
  symlink_made = Lawful.symlink_made;
  symlink_empty = Lawful.symlink_empty;
  chmod_call = λ p mode m no_link. Lawful.on_node-Call p (with_perm mode) m;
  chmod_none = λ p mode m e. Lawful.on_node-none p (with_perm mode) m e;
  chmod_done = λ p mode m i e l h. Lawful.on_node_done p (with_perm mode) m i e l;
  chown_call = λ p u g m no_link. Lawful.on_node-Call p (with_owner u g) m;
  chown_done = λ p u g m i e l k h. Lawful.on_node_done p (with_owner u g) m i e l;
  lchown_call = Lawful.lchown-Call;
  lchown_done = λ p u g m i e k h. Lawful.lchown_done p u g m i e;
  open_read_none = Descriptors.open_read_none;
  open_read_some = Descriptors.open_read_some;
  open_read_unread = Descriptors.open_read_unread;
  open_write_frame = λ p mode m no_link. Descriptors.open_write-Frame p mode m;
  open_write_none = Descriptors.open_write_none;
  open_write_some = Descriptors.open_write_some;
  open_write_made = λ p mode m fd h plain. Descriptors.open_write_made p mode m fd h;
  fchmod_call = λ fd mode m p h. (
    Lawful.on_open-Call fd (with_perm mode) m p h,
    Lawful.on_open_unread fd (with_perm mode) m p,
  );
  fchmod_done = λ fd mode m p i h e k. Lawful.on_open_done fd (with_perm mode) m p i h e;
  fchown_call = λ fd u g m p h. (
    Lawful.on_open-Call fd (with_owner u g) m p h,
    Lawful.on_open_unread fd (with_owner u g) m p,
  );
  fchown_done = λ fd u g m p i h e k l. Lawful.on_open_done fd (with_owner u g) m p i h e;
  clone_call = λ dest src m p h. ((λ q apart. refl, λ fd. refl), λ fd q k apart. refl);
  clone_done = λ dest src m p q i j content h k e f a b done. absurd (ground arith);
  clone_failed = λ dest src m p h k. refl;
  sendfile_call = Descriptors.sendfile-Call;
  sendfile_end = λ dest src n m p q i content d s apart e b some_n h.
      Descriptors.sendfile_end dest src n m p q i content d s e b some_n h;
  sendfile_sent = λ dest src n m p q i content k d s apart e b h.
      Descriptors.sendfile_sent dest src n m p q i content k d s e b h;
  close_call = Descriptors.close_call;
}
