-- ===== src/Partial.antt =====
-- stack-graphs/src/partial.rs. The deques of the partial stacks are modelled by the lists that they
-- hold: `Arena.Deque` is about their representation. A variable is its number, and none is 0.
pub mod ScopeStack
pub mod ScopeBindings
pub mod ScopedSymbol
pub mod SymbolStack
pub mod SymbolBindings
pub mod EdgeList
pub mod Stacks
pub mod Path
