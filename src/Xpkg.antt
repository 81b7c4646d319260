-- ===== src/Xpkg.antt =====
-- hack/normalize-xpkg-base-layer.go: one base layer for the packages of all platforms. Package has a
-- platform's package and its loading, Rewrite the rewriting of one, Normalize the program.
pub mod Files
pub mod Archives
pub mod Package
pub mod Rewrite
pub mod Normalize
