-- ===== src/Util.antt =====
-- util.c and util.h: the arithmetic that every other part rests on.
pub mod Seqno
pub mod Prefix
pub mod Text
pub mod Timeval
