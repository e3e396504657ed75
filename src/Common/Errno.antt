-- ===== src/Common/Errno.antt =====
-- The error numbers of inc/kns/errno.h and of the kernel that the modelled code returns. A function
-- that returns a negated one returns `err e` in the model.
pub data Errno : Type 0 where
  einval enomem ebusy eagain enoent eio enobufs edquot : Errno
