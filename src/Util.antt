-- ===== src/Util.antt =====
-- lib/util: the ordered array and the comparison functions of sort.h.
pub mod Sort
pub mod OArray
pub mod LinkedList
