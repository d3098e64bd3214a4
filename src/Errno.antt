-- ===== src/Errno.antt =====
-- The error codes of include/errno.h that functions return; `success` is their 0.
pub data Errno : Type 0 where
  success enomem eagain einval ebusy efault enodev eexist eio esrch etimedout enoent : Errno
