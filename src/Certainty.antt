-- ===== src/Certainty.antt =====
-- core/certainty.py: the grid of certainties, its cells and its methods. Times are non-negative.
-- The cells are mutable objects that the grid holds: a method returns the new grid.
mod Cells
mod Methods
pub mod Grid
pub mod Square
pub mod Updates
pub mod Loops
pub mod Merge
pub mod Convergence
pub mod Copy
unfoldable pub use Cells.*
unfoldable pub use Methods.*
