-- ===== src/Lsa.antt =====
-- windows/lsa_authentication_package: the package that decides on a logon inside the LSA.
pub mod Package
pub mod Logon
pub mod Lookup
