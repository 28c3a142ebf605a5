-- ===== src/Pagination.antt =====
-- src/arvel/pagination/__init__.py: the three paginators. Texts are lists of code points; the
-- rendering of a page bar and the cursor's wire format are not modelled.
pub mod Base
pub mod LengthAware
pub mod Simple
pub mod Cursor
pub mod Window
pub mod Counting
mod Tests
