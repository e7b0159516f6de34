-- ===== src/Dao.antt =====
-- Server/SessionServer/MysqlDao.cpp and MysqlManager.cpp.
pub mod Catalog
pub mod Reading
pub mod Lists
pub mod Playlists
pub mod GetOrCreate
